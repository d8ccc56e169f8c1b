-- ===== src/UrlState.antt =====
-- web/src/urlState.ts and web/src/prefs.ts: the view that a link or a reload restores.
pub mod Sets
pub mod Query
pub mod Link
use kd.Common.{
  ℕ, ◌+◌, Bool, true, false, not, ◌&&◌, ◌||◌, Option, none, some, List, [], ◌∷◌, ◌++◌, map, Text,
  text, text_eq, ◌==◌, if◌then◌else◌, is_nil, filter, find?, lookup, insert, contains, add,
  split_unit, join_unit, text_ltb, sort, Ordering,
}
use kd.Types.{KNode, RelCategory, truthy, rel_eq}
use kd.Nav.{namespace_of}
use kd.Relationships.{rel_name, parse_rels}
use kd.Controls.{toggle_in_set}
use kd.Spotlight.{GroupBy}

-- The query of a URL, and the local storage: absent where it throws.
abbrev pub Params : Type 0
Params = List (Text × Text)

abbrev pub Storage : Type 0
Storage = Option Params

unfoldable pub read_raw_pref : Text → Storage → Option Text
read_raw_pref key none = none
read_raw_pref key (some items) = lookup key items

-- A stored value counts where it is one of the allowed ones.
unfoldable pub read_pref {ℓ} : {A : Type ℓ} → (name : A → Text) → Text → A → List A → Storage → A
read_pref name key fallback allowed storage = elim (read_raw_pref key storage) [
  | none ↦ fallback
  | some v ↦ (elim (find? (λ a. name a == v) allowed) [ none ↦ fallback | some a ↦ a ])
]

unfoldable pub write_pref : Text → Text → Storage → Storage
write_pref key value none = none
write_pref key value (some items) = some (insert key value items)

pub data CapResource : Type 0 where
  cpu memory : CapResource

abbrev pub group_name : GroupBy → Text
group_name GroupBy.relationship = text "relationship"
group_name GroupBy.nodes = text "nodes"
group_name GroupBy.kind = text "kind"

abbrev pub cap_name : CapResource → Text
cap_name CapResource.cpu = text "cpu"
cap_name CapResource.memory = text "memory"

-- GROUP_IDS
abbrev pub group_ids : List GroupBy
group_ids = GroupBy.relationship ∷ GroupBy.nodes ∷ GroupBy.kind ∷ []

abbrev pub cap_ids : List CapResource
cap_ids = CapResource.cpu ∷ CapResource.memory ∷ []

abbrev pub default_rels : List RelCategory
default_rels = RelCategory.ownership ∷ []

pub record View : Type 0 where
  pub ctx : Option Text
  pub namespace : Option Text
  pub group_by : GroupBy
  pub rel_filter : List RelCategory
  pub cap_resource : CapResource
  pub show_orphaned : Bool
  pub kind_filter : List Text
  pub initial_sel : Option Text

-- The value of the list that the text names.
abbrev pub named_by {ℓ} : {A : Type ℓ} → (A → Text) → List A → Option Text → Option A
named_by name allowed none = none
named_by name allowed (some v) = find? (λ a. name a == v) allowed

-- The URL's value where it is one of the allowed ones, else the stored one, else the fallback.
unfoldable pub seed_enum {ℓ} :
    {A : Type ℓ} → (name : A → Text) → Text → Text → A → List A → Params → Storage → A
seed_enum name param key fallback allowed params storage =
    elim (named_by name allowed (lookup param params)) [
      | none ↦ read_pref name key fallback allowed storage
      | some a ↦ a
    ]

abbrev pub is_one : Option Text → Bool
is_one none = false
is_one (some v) = v == text "1"

unfoldable pub seed_orphans : Params → Storage → Bool
seed_orphans params storage = elim (lookup (text "orphans") params) [
  | none ↦ is_one (read_raw_pref (text "kd:orphans") storage)
  | some v ↦ is_one (some v)
]

-- `new Set(xs)`, with the set so far.
unfoldable pub text_set : List Text → List Text → List Text
text_set out [] = out
text_set out (x ∷ xs) = text_set (add out x) xs

abbrev pub kinds_from : Option Text → List Text
kinds_from none = []
kinds_from (some kinds) = text_set [] (filter (λ k. not (is_nil k)) (split_unit b',' kinds))

unfoldable pub seed_kinds : Params → List Text
seed_kinds params = kinds_from (truthy (lookup (text "kinds") params))

-- `a ?? b ?? c`
abbrev pub first_set : Option (List RelCategory) → Option (List RelCategory) → List RelCategory
first_set (some a) b = a
first_set none (some b) = b
first_set none none = default_rels

-- createUrlState; `toLowerCase` of the host.
unfoldable pub create_url_state : (Text → Text) → Params → Storage → View
create_url_state to_lower_case params storage = record {
  ctx = lookup (text "ctx") params;
  namespace = lookup (text "ns") params;
  group_by =
      seed_enum group_name (text "group") (text "kd:groupBy") GroupBy.relationship group_ids params
        storage;
  rel_filter =
      first_set (parse_rels to_lower_case (lookup (text "rels") params))
        (parse_rels to_lower_case (read_raw_pref (text "kd:rels") storage));
  cap_resource =
      seed_enum cap_name (text "capRes") (text "kd:capRes") CapResource.cpu cap_ids params storage;
  show_orphaned = seed_orphans params storage;
  kind_filter = seed_kinds params;
  initial_sel = lookup (text "sel") params;
}

-- The order of `sort()` on strings.
unfoldable pub text_order : Text → Text → Ordering
text_order s t =
    if text_ltb s t then Ordering.lt else if text_ltb t s then Ordering.gt else Ordering.eq

-- `[...xs].sort().join(',')`
unfoldable pub sorted_list : List Text → Text
sorted_list xs = join_unit b',' (sort text_order xs)

abbrev pub rels_text : List RelCategory → Text
rels_text rels = sorted_list (map rel_name rels)

-- The effects that store the preferences.
unfoldable pub write_prefs : View → Storage → Storage
write_prefs v storage =
    write_pref (text "kd:orphans") (if v.show_orphaned then text "1" else text "0") (
      write_pref (text "kd:capRes") (cap_name v.cap_resource) (
        write_pref (text "kd:rels") (rels_text v.rel_filter)
          (write_pref (text "kd:groupBy") (group_name v.group_by) storage)))

-- `if (…) p.set(key, value)`
abbrev pub set_some : Text → Option Text → Params → Params
set_some key none params = params
set_some key (some value) params = insert key value params

abbrev pub some_if : Bool → Text → Option Text
some_if true v = some v
some_if false v = none

abbrev pub differs : Option Text → Text → Bool
differs none ns = true
differs (some current) ns = not (ns == current)

-- The reference to the selected node.
unfoldable pub sel_ref : Option Text → KNode → Text
sel_ref namespace n = elim (truthy n.namespace) [
  | none ↦ n.kind ++ b'/' ∷ n.name
  | some ns ↦
      if differs namespace ns
      then n.kind ++ b'/' ∷ (ns ++ b'/' ∷ n.name)
      else n.kind ++ b'/' ∷ n.name
]

abbrev pub sel_of : Option Text → Option KNode → Option Text
sel_of namespace none = none
sel_of namespace (some n) = some (sel_ref namespace n)

-- createUrlSync: the query for a view, where the contexts list has come (`enabled`), and the selected
-- node.
unfoldable pub url_params : View → Option Bool → Option KNode → Params
url_params v enabled selected =
    let rels = rels_text v.rel_filter in
    set_some (text "kinds") (some_if (not (is_nil v.kind_filter)) (sorted_list v.kind_filter)) (
      set_some (text "sel") (sel_of v.namespace selected) (
        set_some (text "orphans") (some_if v.show_orphaned (text "1")) (
          set_some (text "capRes")
            (some_if (not (cap_name v.cap_resource == text "cpu")) (cap_name v.cap_resource))
            (set_some (text "rels") (some_if (not (rels == text "ownership")) rels) (
              set_some (text "group")
                (some_if (not (group_name v.group_by == text "relationship"))
                  (group_name v.group_by))
                (set_some (text "ns") (truthy v.namespace) (
                  set_some (text "ctx")
                    (elim enabled [ none ↦ none | some on ↦ if on then truthy v.ctx else none ])
                    [])))))))

unfoldable pub toggle_rel : RelCategory → (solo : Bool) → View → View
toggle_rel c solo v = record v { rel_filter = toggle_in_set v.rel_filter c solo }

unfoldable pub toggle_kind : Text → (solo : Bool) → View → View
toggle_kind k solo v = record v { kind_filter = toggle_in_set v.kind_filter k solo }

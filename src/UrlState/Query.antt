-- ===== src/UrlState/Query.antt =====
-- The parameters of a query and the stored preferences, one by one (web/src/urlState.ts).
use kd.Common.{
  ◌≡◌, refl, ap, ◌∙◌, Bool, not, Option, none, some, List, [], Text, text, text_eq, ◌==◌,
  if◌then◌else◌, is_nil, find?, lookup, lookup-insert, arith, Bool-cases, inl, inr,
}
use kd.Types.{KNode, truthy, rel_eq}
use kd.Spotlight.{GroupBy}
use kd.UrlState.{
  Params, Storage, View, CapResource, group_name, cap_name, group_ids, cap_ids, read_raw_pref,
  read_pref, write_pref, seed_enum, sorted_list, rels_text, write_prefs, set_some, some_if, sel_of,
  url_params,
}

abbrev pub or_else : Option Text → Option Text → Option Text
or_else none b = b
or_else (some a) b = some a

pub lookup-set_some :
    (key other : Text) (o : Option Text) (params : Params)
    → lookup other (set_some key o params)
      ≡ (if key == other then or_else o (lookup other params) else lookup other params)
lookup-set_some key other none params = ground arith
lookup-set_some key other (some value) params = ground (arith, lookup-insert key other value params)

pub lookup-empty : (key : Text) → lookup {V = Text} key [] ≡ none
unfolding lookup
lookup-empty key = refl

pub or_else-none : (o : Option Text) → or_else o none ≡ o
or_else-none none = refl
or_else-none (some a) = refl

ruleset params_laws = (lookup-set_some, lookup-empty, or_else-none)

module _ (v : View) (enabled : Option Bool) (selected : Option KNode) where
  abbrev pub query : Params
  query = url_params v enabled selected

  pub group_param :
      lookup (text "group") query
      ≡ some_if (not (group_name v.group_by == text "relationship")) (group_name v.group_by)
  unfolding url_params
  group_param = simp params_laws

  pub cap_param :
      lookup (text "capRes") query
      ≡ some_if (not (cap_name v.cap_resource == text "cpu")) (cap_name v.cap_resource)
  unfolding url_params
  cap_param = simp params_laws

  pub rels_param :
      lookup (text "rels") query
      ≡ some_if (not (rels_text v.rel_filter == text "ownership")) (rels_text v.rel_filter)
  unfolding url_params
  rels_param = simp params_laws

  pub orphans_param : lookup (text "orphans") query ≡ some_if v.show_orphaned (text "1")
  unfolding url_params
  orphans_param = simp params_laws

  pub kinds_param :
      lookup (text "kinds") query ≡ some_if (not (is_nil v.kind_filter)) (sorted_list v.kind_filter)
  unfolding url_params
  kinds_param = simp params_laws

  pub sel_param : lookup (text "sel") query ≡ sel_of v.namespace selected
  unfolding url_params
  sel_param = simp params_laws

  pub ns_param : lookup (text "ns") query ≡ truthy v.namespace
  unfolding url_params
  ns_param = simp params_laws

-- What stands in the storage after the effects have run.
module _ (v : View) (items : Params) where
  pub stored_group :
      read_raw_pref (text "kd:groupBy") (write_prefs v (some items)) ≡ some (group_name v.group_by)
  unfolding read_raw_pref write_prefs write_pref
  stored_group = simp lookup-insert

  pub stored_cap :
      read_raw_pref (text "kd:capRes") (write_prefs v (some items)) ≡ some (cap_name v.cap_resource)
  unfolding read_raw_pref write_prefs write_pref
  stored_cap = simp lookup-insert

  pub stored_rels :
      read_raw_pref (text "kd:rels") (write_prefs v (some items)) ≡ some (rels_text v.rel_filter)
  unfolding read_raw_pref write_prefs write_pref
  stored_rels = simp lookup-insert

  pub stored_orphans :
      read_raw_pref (text "kd:orphans") (write_prefs v (some items))
      ≡ some (if v.show_orphaned then text "1" else text "0")
  unfolding read_raw_pref write_prefs write_pref
  stored_orphans = simp lookup-insert

-- The value of an enumeration, with the URL's value left out at the default.
module _ {A : Type 0} (name : A → Text) (param key standard : Text) (fallback : A)
    (allowed : List A) (reads : (a : A) → find? (λ b. name b == name a) allowed ≡ some a) where
  pub seed-linked :
      (a : A) (params : Params) (storage : Storage)
      → lookup param params ≡ some_if (not (name a == standard)) (name a)
      → seed_enum name param key fallback allowed params storage
        ≡ (if name a == standard then read_pref name key fallback allowed storage else a)
  unfolding seed_enum
  seed-linked a params storage h = elim (Bool-cases (name a == standard)) [
    | inl default_one ↦
        let absent : lookup param params ≡ none =
          h ∙ ap (λ b. some_if (not b) (name a)) default_one in
        rw (absent, seed_enum) (rw default_one refl)
    | inr other ↦
        let there : lookup param params ≡ some (name a) =
          h ∙ ap (λ b. some_if (not b) (name a)) other in
        rw (there, seed_enum) (rw (reads a, seed_enum) (rw other refl))
  ]

  pub read-stored :
      (a : A) (storage : Storage)
      → read_raw_pref key storage ≡ some (name a)
      → read_pref name key fallback allowed storage ≡ a
  unfolding read_pref
  read-stored a storage h = rw (h, read_pref) (rw (reads a, read_pref) refl)

pub reads_group : (g : GroupBy) → find? (λ b. group_name b == group_name g) group_ids ≡ some g
reads_group GroupBy.relationship = refl
reads_group GroupBy.nodes = refl
reads_group GroupBy.kind = refl

pub reads_cap : (c : CapResource) → find? (λ b. cap_name b == cap_name c) cap_ids ≡ some c
reads_cap CapResource.cpu = refl
reads_cap CapResource.memory = refl

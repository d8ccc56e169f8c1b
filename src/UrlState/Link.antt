-- ===== src/UrlState/Link.antt =====
-- What a link and a reload restore (web/src/urlState.ts).
use kd.Common.{
  ◌≡◌, refl, sym, ap, ◌∙◌, Bool, false, not, ◌||◌, Option, none, some, List, [], ◌∷◌, Text, text,
  text_eq, ◌==◌, if◌then◌else◌, is_nil, contains, All, join_unit, arith, Bool-cases, inl, inr,
  ==_iff, sort, place,
}
use kd.Types.{KNode, RelCategory, truthy, rel_eq}
use kd.Relationships.{parse_rels}
use kd.Relationships.Link.{Distinct, IsLowerLetter}
use kd.UrlState.Sets.{rel_order, parse_rels-text, contains-sort, IsKind, linked_kinds}
use kd.Spotlight.{GroupBy}
use kd.UrlState.{
  Storage, View, CapResource, group_name, cap_name, group_ids, cap_ids, default_rels, read_raw_pref,
  read_pref, write_pref, seed_orphans, is_one, kinds_from, seed_kinds, first_set, create_url_state,
  sorted_list, rels_text, write_prefs, some_if, sel_of, url_params,
}
use kd.UrlState.Query.{
  group_param, cap_param, rels_param, orphans_param, kinds_param, sel_param, ns_param, stored_group,
  stored_cap, stored_rels, stored_orphans, seed-linked, read-stored, reads_group, reads_cap,
}

or_default :
    (to_lower_case : Text → Text) (o : Option Text) (stored : Option Text) (rs : List RelCategory)
    → parse_rels to_lower_case o ≡ some rs
    → first_set (parse_rels to_lower_case o) (parse_rels to_lower_case stored) ≡ rs
or_default lower o stored rs h = rw h refl

own_group :
    (g : GroupBy) → (if group_name g == text "relationship" then GroupBy.relationship else g) ≡ g
own_group GroupBy.relationship = refl
own_group GroupBy.nodes = refl
own_group GroupBy.kind = refl

own_cap : (c : CapResource) → (if cap_name c == text "cpu" then CapResource.cpu else c) ≡ c
own_cap CapResource.cpu = refl
own_cap CapResource.memory = refl

truthy-some : (t : Text) → is_nil t ≡ false → truthy (some t) ≡ some t
truthy-some [] h = cc
truthy-some (c ∷ t) h = refl

kinds_read :
    (xs : List Text)
    → All IsKind xs
    → (k : Text)
    → contains (kinds_from (truthy (some_if (not (is_nil xs)) (sorted_list xs)))) k ≡ contains xs k
kinds_read [] h k = refl
kinds_read (x ∷ xs) h k =
    let (filled, same) = linked_kinds (x ∷ xs) h (λ e. cc) in
    ap (λ o. contains (kinds_from o) k) (truthy-some (sorted_list (x ∷ xs)) filled) ∙ same k

some-injective : {A : Type 0} {x y : A} → some x ≡ some y → x ≡ y
some-injective h = cc

module _ (to_lower_case : Text → Text) (v : View) (enabled : Option Bool)
    (selected : Option KNode) where
  abbrev pub opened_with : Storage → View
  opened_with storage = create_url_state to_lower_case (url_params v enabled selected) storage

  -- What a link restores on any client, whatever is stored there: the namespace and the selection; the
  -- grouping and the resource where they are not the standard ones, for which the stored ones stand in;
  -- and the orphans, unless only the client's own flag shows them.
  pub create_url_state-shared :
      (storage : Storage)
      → let w = opened_with storage in
        (w.namespace ≡ truthy v.namespace)
        × (w.initial_sel ≡ sel_of v.namespace selected)
        × (w.group_by ≡ (
            if group_name v.group_by == text "relationship"
            then read_pref group_name (text "kd:groupBy") GroupBy.relationship group_ids storage
            else v.group_by))
        × (w.cap_resource ≡ (
            if cap_name v.cap_resource == text "cpu"
            then read_pref cap_name (text "kd:capRes") CapResource.cpu cap_ids storage
            else v.cap_resource))
        × (w.show_orphaned
            ≡ (v.show_orphaned || is_one (read_raw_pref (text "kd:orphans") storage)))
  unfolding create_url_state seed_orphans
  create_url_state-shared storage = (
    ns_param v enabled selected,
    sel_param v enabled selected,
    seed-linked group_name (text "group") (text "kd:groupBy") (text "relationship")
        GroupBy.relationship group_ids reads_group v.group_by _ storage
        (group_param v enabled selected),
    seed-linked cap_name (text "capRes") (text "kd:capRes") (text "cpu") CapResource.cpu cap_ids
        reads_cap v.cap_resource _ storage (cap_param v enabled selected),
    ground (arith, orphans_param v enabled selected),
  )

  standard_cap :
      (storage : Storage)
      → (if cap_name v.cap_resource == text "cpu"
          then read_pref cap_name (text "kd:capRes") CapResource.cpu cap_ids (write_prefs v storage)
          else v.cap_resource)
        ≡ v.cap_resource
  unfolding write_prefs write_pref read_pref read_raw_pref
  standard_cap (some items) =
      rw
        (read-stored cap_name (text "capRes") (text "kd:capRes") (text "cpu") CapResource.cpu
          cap_ids reads_cap v.cap_resource _ (stored_cap v items))
        (ground arith)
  standard_cap none = own_cap v.cap_resource

  own_orphans :
      (storage : Storage)
      → (v.show_orphaned || is_one (read_raw_pref (text "kd:orphans") (write_prefs v storage)))
        ≡ v.show_orphaned
  unfolding write_prefs write_pref read_raw_pref
  own_orphans (some items) = rw (stored_orphans v items) (ground arith)
  own_orphans none = ground arith

  standard_group :
      (storage : Storage)
      → (if group_name v.group_by == text "relationship"
          then read_pref group_name
              (text "kd:groupBy")
              GroupBy.relationship
              group_ids
              (write_prefs v storage)
          else v.group_by)
        ≡ v.group_by
  unfolding write_prefs write_pref read_pref read_raw_pref
  standard_group (some items) =
      rw
        (read-stored group_name (text "group") (text "kd:groupBy") (text "relationship")
          GroupBy.relationship group_ids reads_group v.group_by _ (stored_group v items))
        (ground arith)
  standard_group none = own_group v.group_by

  module _ (keeps : (s : Text) → All IsLowerLetter s → to_lower_case s ≡ s)
      (distinct : Distinct v.rel_filter) where
    abbrev sorted_rels : List RelCategory
    sorted_rels = sort rel_order v.rel_filter

    reads_rels : parse_rels to_lower_case (some (rels_text v.rel_filter)) ≡ some sorted_rels
    reads_rels = parse_rels-text to_lower_case v.rel_filter keeps distinct

    -- The list that is left out of the URL is the default one.
    only_owners : rels_text v.rel_filter ≡ text "ownership" → sorted_rels ≡ default_rels
    unfolding sort place contains parse_rels sorted_list join_unit
    only_owners h = some-injective (
        sym reads_rels
        ∙ ap (λ t. parse_rels to_lower_case (some t)) h
        ∙ parse_rels-text to_lower_case default_rels keeps (refl, tt))

    rels_left_out :
        (storage : Storage)
        → rels_text v.rel_filter ≡ text "ownership"
        → first_set none
            (parse_rels to_lower_case (read_raw_pref (text "kd:rels") (write_prefs v storage)))
          ≡ sorted_rels
    unfolding write_prefs write_pref read_raw_pref parse_rels
    rels_left_out (some items) h =
        ap (λ o. first_set none (parse_rels to_lower_case o)) (stored_rels v items)
        ∙ ap (first_set none) reads_rels
    rels_left_out none h = sym (only_owners h)

    rels_restored :
        (storage : Storage) → (opened_with (write_prefs v storage)).rel_filter ≡ sorted_rels
    unfolding create_url_state parse_rels
    rels_restored storage =
        let stored = read_raw_pref (text "kd:rels") (write_prefs v storage) in
        ap (λ o. first_set (parse_rels to_lower_case o) (parse_rels to_lower_case stored))
          (rels_param v enabled selected)
        ∙ (elim (Bool-cases (rels_text v.rel_filter == text "ownership")) [
          | inl owners ↦ rw owners (
              rels_left_out storage ((==_iff (rels_text v.rel_filter) (text "ownership")).0 owners))
          | inr other ↦ rw other (
              or_default to_lower_case (some (rels_text v.rel_filter)) stored sorted_rels
                reads_rels)
        ])

    kinds_restored :
        All IsKind v.kind_filter
        → (storage : Storage) (k : Text)
        → contains (opened_with storage).kind_filter k ≡ contains v.kind_filter k
    unfolding create_url_state seed_kinds
    kinds_restored kinds storage k =
        ap (λ o. contains (kinds_from (truthy o)) k) (kinds_param v enabled selected)
        ∙ kinds_read v.kind_filter kinds k

    -- A reload, or a link opened where nothing can be stored, restores the whole view: the namespace, the
    -- grouping, the resource, the orphans, and, as sets, the relationships and the kinds; for distinct
    -- relationships, kinds without a comma, and a lower-casing that keeps words of lower-case letters.
    pub create_url_state-reload :
        All IsKind v.kind_filter
        → (storage : Storage)
        → let w = opened_with (write_prefs v storage) in
          (w.namespace ≡ truthy v.namespace)
          × (w.group_by ≡ v.group_by)
          × (w.cap_resource ≡ v.cap_resource)
          × (w.show_orphaned ≡ v.show_orphaned)
          × ((r : RelCategory) → contains w.rel_filter r ≡ contains v.rel_filter r)
          × ((k : Text) → contains w.kind_filter k ≡ contains v.kind_filter k)
    create_url_state-reload kinds storage =
        let (ns, sel, group, cap, orphans) = create_url_state-shared (write_prefs v storage) in
        (
          ns,
          group ∙ standard_group storage,
          cap ∙ standard_cap storage,
          orphans ∙ own_orphans storage,
          λ r.
              ap (λ l. contains l r) (rels_restored storage)
              ∙ contains-sort rel_order v.rel_filter r,
          λ k. kinds_restored kinds (write_prefs v storage) k,
        )

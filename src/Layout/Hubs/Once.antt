-- ===== src/Layout/Hubs/Once.antt =====
-- Each leaf that `findHubs` wraps (web/src/layout/hubs.ts) is shown or folded exactly once.
use kd.Common.{
  ◌+◌, ◌≤◌, ◌≡◌, refl, ap, ◌∙◌, Bool, true, false, Option, List, [], ◌∷◌, ◌++◌, Text, text_eq,
  nat_eq, ◌==◌, if◌then◌else◌, ltb, contains, contains-add, add, length, arith, append-nil,
  Bool-cases, inl, inr, Ordering, sort, sort-perm,
}
use kd.Types.{KNode, KEdge}
use kd.Layout.{FoldNode, PositionedNode}
use kd.Layout.Hubs.{Hub, Hubs, fanout_min, add_ids, children_of, hub_of, hubs_from, find_hubs}
use kd.Layout.Hubs.Claims.{times, times-perm, times-append, one_if, is_childless, times-children_of}
use kd.KindStats.Tally.{represented}
use kd.KindStats.Folding.{represented-append}
use kd.KindStats.Hub.{flat, all_cells, collapse_hub_leaves-kind_stats}

-- All cards and pills of the hubs.
abbrev pub hub_cells : List Hub → List PositionedNode
hub_cells [] = []
hub_cells (h ∷ hs) = all_cells h.blocks ++ hub_cells hs

-- The nodes that they stand for.
abbrev pub stood_for : List Hub → List KNode
stood_for hs = represented (hub_cells hs)

stood_for-snoc :
    (hs : List Hub) (h : Hub) (k : Text)
    → times k (stood_for (hs ++ h ∷ []))
      ≡ times k (stood_for hs) + times k (represented (all_cells h.blocks))
unfolding represented
stood_for-snoc [] h k =
    ap (λ c. times k (represented c)) (append-nil (all_cells h.blocks)) ∙ omega arith
stood_for-snoc (g ∷ hs) h k =
    let cells = all_cells g.blocks in
    ap (times k) (represented-append cells (hub_cells (hs ++ h ∷ [])))
    ∙ times-append k (represented cells) (stood_for (hs ++ h ∷ []))
    ∙ omega (
      arith,
      stood_for-snoc hs h k,
      ap (times k) (represented-append cells (hub_cells hs)),
      times-append k (represented cells) (stood_for hs),
    )

contains-add_ids :
    (ns : List KNode) (ids : List Text) (k : Text)
    → one_if (contains (add_ids ns ids) k) ≤ times k ns + one_if (contains ids k)
unfolding add_ids
contains-add_ids [] ids k = omega arith
contains-add_ids (n ∷ ns) ids k =
    ground (arith, contains-add_ids ns (add ids n.id) k, contains-add ids n.id k)

keeps-add_ids :
    (ns : List KNode) (ids : List Text) (k : Text)
    → contains ids k ≡ true
    → contains (add_ids ns ids) k ≡ true
unfolding add_ids
keeps-add_ids [] ids k h = h
keeps-add_ids (n ∷ ns) ids k h =
    keeps-add_ids ns (add ids n.id) k (ground (arith, contains-add ids n.id k))

takes-add_ids :
    (ns : List KNode) (ids : List Text) (k : Text)
    → 1 ≤ times k ns
    → contains (add_ids ns ids) k ≡ true
unfolding add_ids
takes-add_ids [] ids k h = absurd (omega (arith, h))
takes-add_ids (n ∷ ns) ids k h = elim (Bool-cases (n.id == k)) [
  | inl same ↦ keeps-add_ids ns (add ids n.id) k (ground (arith, contains-add ids n.id k))
  | inr other ↦ takes-add_ids ns (add ids n.id) k (ground arith)
]

-- Each wrapped id stands exactly once among the cards and the pills, and no other does.
abbrev pub Once : Hubs → Type 0
Once found = (k : Text) → times k (stood_for found.hubs) ≡ one_if (contains found.wrapped k)

module _ (locale_compare : Text → Text → Ordering) (by_name : KNode → KNode → Ordering)
    (edges : List KEdge) (expanded : List Text) (prioritize : Option (KNode → Bool)) where
  -- What is left to wrap is childless, once, and not yet wrapped.
  abbrev Left : List (Text × List KNode) → Hubs → Type 0
  Left groups found =
      (k : Text)
      → times k (flat groups) + one_if (contains found.wrapped k) ≤ one_if (is_childless edges k)

  times-hub_of :
      (id k : Text) (children : List KNode)
      → times k (
          represented (
            all_cells (hub_of locale_compare by_name edges expanded prioritize id children).blocks))
        ≡ times k children
  unfolding hub_of
  times-hub_of id k children =
      times-perm k
        (collapse_hub_leaves-kind_stats locale_compare by_name id edges expanded prioritize
          (sort by_name children)).0
      ∙ times-perm k (sort-perm by_name children)

  abbrev with_hub : Text → List KNode → Hubs → Hubs
  with_hub id children found = record {
    hubs = found.hubs ++ hub_of locale_compare by_name edges expanded prioritize id children ∷ [];
    wrapped = add_ids (sort by_name children) found.wrapped;
  }

  with_hub-Once :
      (id : Text) (children : List KNode) (rest : List (Text × List KNode)) (found : Hubs)
      → Left ((id, children) ∷ rest) found
      → Once found
      → Once (with_hub id children found) × Left rest (with_hub id children found)
  with_hub-Once id children rest found left once = (
    λ k. ground (
      arith,
      count k,
      stood_for-snoc found.hubs
          (hub_of locale_compare by_name edges expanded prioritize id children) k,
      times-hub_of id k children,
      once k,
      takes-add_ids (sort by_name children) found.wrapped k,
      keeps-add_ids (sort by_name children) found.wrapped k,
      contains-add_ids (sort by_name children) found.wrapped k,
      times-perm k (sort-perm by_name children),
    ),
    λ k. omega (
      arith,
      count k,
      contains-add_ids (sort by_name children) found.wrapped k,
      times-perm k (sort-perm by_name children),
    ),
  )
    where
      count :
          (k : Text)
          → times k children + times k (flat rest) + one_if (contains found.wrapped k)
            ≤ one_if (is_childless edges k)
      count k = omega (arith, left k, times-append k children (flat rest))

  hubs_from-Once :
      (groups : List (Text × List KNode)) (found : Hubs)
      → Left groups found
      → Once found
      → Once (hubs_from locale_compare by_name edges expanded prioritize groups found)
        × Left [] (hubs_from locale_compare by_name edges expanded prioritize groups found)
  unfolding hubs_from
  hubs_from-Once [] found left once = (once, left)
  hubs_from-Once ((id, children) ∷ rest) found left once =
      let (once_now, left_now) = with_enough (ltb (length children) fanout_min) in
      hubs_from-Once rest _ left_now once_now
    where
      with_enough :
          (few : Bool)
          → Once (if few then found else with_hub id children found)
            × Left rest (if few then found else with_hub id children found)
      with_enough true = (once, λ k. omega (arith, left k, times-append k children (flat rest)))
      with_enough false = with_hub-Once id children rest found left once

  -- Whatever the folds and the order of the edges, the cards and the pills of all hubs stand for each
  -- leaf that is taken out of the rest of the layout exactly once, and for no other node; and no edge
  -- of the view comes from such a leaf.
  pub find_hubs-Once :
      (nodes : List FoldNode)
      → let found = find_hubs locale_compare by_name edges expanded prioritize nodes in
        Once found × ((k : Text) → contains found.wrapped k ≡ true → is_childless edges k ≡ true)
  unfolding find_hubs represented contains
  find_hubs-Once nodes =
      let (once, left) =
        hubs_from-Once (children_of nodes edges) (record { hubs = []; wrapped = [] })
          (λ k. omega (arith, times-children_of nodes edges k)) (λ k. refl) in
      (once, λ k h. ground (arith, left k))

-- ===== src/Spotlight/Candidates.antt =====
-- The steps of the keyboard (navCandidates of web/src/nav.ts) against what the canvas lights
-- (web/src/components/topology/spotlight.ts).
use kd.Common.{
  ◌≡◌, refl, Bool, true, false, not, ◌&&◌, ◌||◌, Option, none, some, List, [], ◌∷◌, Text, text_eq,
  ◌==◌, is_nil, contains, contains-add, add, trim, Occurs, get_elem?, zero, suc, ℕ, arith,
  Bool-cases, inl, inr, ==_refl,
}
use kd.Types.{Health, KNode, health_eq}
use kd.Nav.{kind_passes, matches_all}
use kd.Search.{node_matches}
use kd.Controls.{is_node_faded}
use kd.Spotlight.{Source, active_kinds, node_kind_ok, collect_matches, matches, node_faded}

module _ (to_lower_case : Text → Text) (s : Source) where
  collect-keeps :
      (q : Text) (m : List Text) (ns : List KNode) (id : Text)
      → contains m id ≡ true
      → contains (collect_matches to_lower_case s q m ns) id ≡ true
  unfolding collect_matches
  collect-keeps q m [] id h = h
  collect-keeps q m (n ∷ ns) id h =
      elim (Bool-cases (kind_passes s.kind_filter n.kind && node_matches to_lower_case n q)) [
        | inl hit ↦
            rw hit (collect-keeps q (add m n.id) ns id (ground (arith, contains-add m n.id id)))
        | inr miss ↦ rw miss (collect-keeps q m ns id h)
      ]

  -- A visible node that matches is in the set.
  collect-finds :
      (q : Text) (ns : List KNode) (m : List Text) (i : ℕ) (n : KNode)
      → get_elem? ns i ≡ some n
      → kind_passes s.kind_filter n.kind ≡ true
      → node_matches to_lower_case n q ≡ true
      → contains (collect_matches to_lower_case s q m ns) n.id ≡ true
  unfolding collect_matches
  collect-finds q [] m i n at kind_ok hit = cc
  collect-finds q (x ∷ ns) m zero n at kind_ok hit =
      let same : x ≡ n = cc in
      rw (same, kind_ok, hit)
        (collect-keeps q (add m n.id) ns n.id
          (ground (arith, contains-add m n.id n.id, ==_refl n.id)))
  collect-finds q (x ∷ ns) m (suc i) n at kind_ok hit = collect-finds q ns _ i n at kind_ok hit

  kind_ok_lem : (k : Text) → node_kind_ok s k ≡ kind_passes s.kind_filter k
  unfolding node_kind_ok active_kinds
  kind_ok_lem k = ground arith

  abbrev is_on {ℓ} : {A : Type ℓ} → Option A → Bool
  is_on none = false
  is_on (some _) = true

  -- Some query or a health filter is set.
  abbrev pub is_searching : Bool
  is_searching = not (is_nil (trim s.query)) || is_on s.health_filter

  matches-finds :
      (n : KNode)
      → Occurs n s.visible_nodes
      → kind_passes s.kind_filter n.kind ≡ true
      → node_matches to_lower_case n (trim s.query) ≡ true
      → is_nil (trim s.query) ≡ false
      → (m : List Text) × (matches to_lower_case s ≡ some m) × (contains m n.id ≡ true)
  unfolding matches
  matches-finds n (i, at) kind_ok hit typed = (
    collect_matches to_lower_case s (trim s.query) [] s.visible_nodes,
    rw typed refl,
    collect-finds (trim s.query) s.visible_nodes [] i n at kind_ok hit,
  )

  matches-none : is_nil (trim s.query) ≡ true → matches to_lower_case s ≡ none
  unfolding matches
  matches-none blank = rw blank refl

  -- While a query or a health filter is set, a visible node that the arrow keys step through is not
  -- faded.
  pub candidate-lit :
      (n : KNode)
      → Occurs n s.visible_nodes
      → is_searching ≡ true
      → matches_all to_lower_case (trim s.query) s.health_filter s.kind_filter n ≡ true
      → node_faded to_lower_case s n ≡ false
  unfolding node_faded is_node_faded matches_all
  candidate-lit n seen searching candidate = elim (Bool-cases (is_nil (trim s.query))) [
    | inl blank ↦ ground (arith, kind_ok_lem n.kind, matches-none blank)
    | inr typed ↦
        let (m, e, found) = matches-finds n seen (ground arith) (ground arith) typed in
        ground (arith, kind_ok_lem n.kind)
  ]

  -- While both a query and a health filter are set, the canvas lights every visible match, and the
  -- arrow keys step through those of the wanted health only.
  pub search_overrides_health :
      (n : KNode) (wanted : Health)
      → Occurs n s.visible_nodes
      → s.health_filter ≡ some wanted
      → is_nil (trim s.query) ≡ false
      → kind_passes s.kind_filter n.kind ≡ true
      → node_matches to_lower_case n (trim s.query) ≡ true
      → (node_faded to_lower_case s n ≡ false)
        × (matches_all to_lower_case (trim s.query) s.health_filter s.kind_filter n
            ≡ (n.health == wanted))
  unfolding node_faded is_node_faded matches_all
  search_overrides_health n wanted seen filter_on typed kind_ok hit =
      let (m, e, found) = matches-finds n seen kind_ok hit typed in
      (ground (arith, kind_ok_lem n.kind), ground arith)

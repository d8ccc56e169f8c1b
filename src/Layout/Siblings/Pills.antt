-- ===== src/Layout/Siblings/Pills.antt =====
-- What the pills of `foldSiblingSubtrees` (web/src/layout/collapse.ts) stand for.
use kd.Common.{
  ◌≡◌, ◌≢◌, refl, ap, ◌∙◌, sym, Bool, true, false, not, ◌&&◌, ◌||◌, Option, none, some, List, [],
  ◌∷◌, ◌++◌, map, map-append, append-nil, Text, text_eq, ◌==◌, ltb, lookup, contains, contains-add,
  filter, any, length, List-cases, Bool-cases, inl, inr, All, All-append, arith, is_nil, add,
  Ordering,
}
use mathlib.Core.Path.{fun_ext}
use kd.Types.{KNode, KEdge, or_empty}
use kd.Collapse.{Fold, split_for_fold, collapse_min_hidden}
use kd.Layout.{FoldNode, CollapseMeta, collapse_kind, pill_node, pill_id}
use kd.Layout.Blocks.{sibling_key}
use kd.Layout.Siblings.{
  Member, Folding, Rewritten, add_ids, fold_group, consider_group, consider_groups,
  consider_parents, members_from, unfolded, rewrite, fold_sibling_subtrees, framed_node, plain_node,
  child_edges_from, index_ids, group_pill, is_foldable,
}
use kd.Layout.Siblings.Descent.{descendants-returns}

abbrev pub has_id : Text → List KNode → Bool
has_id id ns = any (λ n. n.id == id) ns

-- A folded pill stands for the node: the node is a hidden sibling or a descendant of one.
abbrev pub hides_meta : Text → Option CollapseMeta → Bool
hides_meta id none = false
hides_meta id (some m) =
    not m.expanded && (has_id id m.hidden || has_id id (or_empty m.hidden_descendants))

abbrev pub hides : Text → FoldNode → Bool
hides id p = hides_meta id p.collapse

abbrev pub is_hidden : List FoldNode → Text → Bool
is_hidden pills id = any (hides id) pills

contains-add_ids :
    (ns : List KNode) (ids : List Text) (id : Text)
    → contains (add_ids ns ids) id ≡ (has_id id ns || contains ids id)
unfolding add_ids
contains-add_ids [] ids id = refl
contains-add_ids (n ∷ ns) ids id =
    ground (arith, contains-add_ids ns (add ids n.id) id, contains-add ids n.id id)

any-append :
    {A : Type 0} (p : A → Bool) (xs ys : List A) → any p (xs ++ ys) ≡ (any p xs || any p ys)
any-append p [] ys = refl
any-append p (x ∷ xs) ys = ground (arith, any-append p xs ys)

pill_ends : List KEdge → List Text
pill_ends es = map (λ e. e.to) es

pill_ids : List FoldNode → List Text
pill_ids ps = map (λ p. p.node.id) ps

-- The sets agree with the pills.
record IsTrue (st : Folding) : Type 0 where
  removes : (id : Text) → contains st.removed id ≡ is_hidden st.pills id
  bundles : pill_ends st.pill_edges ≡ pill_ids st.pills
  kinds : All (λ p. p.node.kind ≡ collapse_kind) st.pills
  frames : st.pills ≡ [] → st.framed ≡ []

snoc-ne-nil : {A : Type 0} (xs : List A) (y : A) → xs ++ y ∷ [] ≢ []
snoc-ne-nil [] y h = cc
snoc-ne-nil (x ∷ xs) y h = cc

fold_group-IsTrue :
    (parent_id kind : Text) (group : List Member) (is_expanded : Bool) (f : Fold)
    (descendants : List KNode) (st : Folding)
    → IsTrue st
    → IsTrue (fold_group parent_id kind group is_expanded f descendants st)
unfolding fold_group pill_ends pill_ids pill_node
fold_group-IsTrue parent_id kind group is_expanded f descendants st t = record {
  removes = λ id. ground (
    arith,
    t.removes id,
    any-append (hides id) st.pills (the_pill ∷ []),
    contains-add_ids descendants (add_ids f.hidden st.removed) id,
    contains-add_ids f.hidden st.removed id,
  );
  bundles =
      map-append (λ (e : KEdge). e.to) st.pill_edges _
      ∙ ap (λ l. l ++ pill_id key ∷ []) t.bundles
      ∙ sym (map-append (λ (p : FoldNode). p.node.id) st.pills (the_pill ∷ []));
  kinds = All-append _ st.pills _ t.kinds (refl, tt);
  frames = λ e. absurd (snoc-ne-nil st.pills the_pill e);
}
  where
    key : Text
    key = sibling_key parent_id kind

    the_pill : FoldNode
    the_pill = group_pill key kind is_expanded f descendants

unfolded-IsTrue : IsTrue unfolded
unfolding contains pill_ends pill_ids
unfolded-IsTrue = record { removes = λ id. refl; bundles = refl; kinds = tt; frames = λ e. refl }

module _ (by_name : KNode → KNode → Ordering) (expanded : List Text)
    (prioritize : Option (KNode → Bool)) (edges : List KEdge) (by_id : List (Text × KNode)) where
  abbrev child_edges : List (Text × List KEdge)
  child_edges = child_edges_from by_id edges []

  consider_group-IsTrue :
      (parent_id kind : Text) (group : List Member) (st : Folding)
      → IsTrue st
      → (t : Folding) × (consider_group by_name expanded prioritize edges by_id child_edges
            parent_id kind group st
          ≡ some t)
        × IsTrue t
  unfolding consider_group
  consider_group-IsTrue parent_id kind group st true_st =
      let is_expanded = contains expanded (sibling_key parent_id kind) in
      let f = split_for_fold by_name (map (λ g. g.node) group) is_expanded prioritize in
      let folds =
        is_foldable by_name expanded prioritize edges by_id child_edges kind group st.claimed
        && not (ltb (length f.hidden) collapse_min_hidden) in
      let (descendants, e) = descendants-returns by_id edges f.hidden in
      (elim (Bool-cases folds) [
        | inl yes_folds ↦ (
          fold_group parent_id kind group is_expanded f descendants st,
          rw yes_folds (rw e refl),
          fold_group-IsTrue parent_id kind group is_expanded f descendants st true_st,
        )
        | inr no_fold ↦ (st, rw no_fold refl, true_st)
      ])

  consider_groups-IsTrue :
      (parent_id : Text) (groups : List (Text × List Member)) (st : Folding)
      → IsTrue st
      → (t : Folding) × (consider_groups by_name expanded prioritize edges by_id child_edges
            parent_id groups st
          ≡ some t)
        × IsTrue t
  unfolding consider_groups
  consider_groups-IsTrue parent_id [] st h = (st, refl, h)
  consider_groups-IsTrue parent_id ((kind, group) ∷ groups) st h =
      let (u, e, k) = consider_group-IsTrue parent_id kind group st h in
      let (t, e', k') = consider_groups-IsTrue parent_id groups u k in
      (t, rw (e, consider_groups) e', k')

  consider_parents-IsTrue :
      (parents : List (Text × List KEdge)) (st : Folding)
      → IsTrue st
      → (t : Folding) × (consider_parents by_name expanded prioritize edges by_id child_edges
            parents st
          ≡ some t)
        × IsTrue t
  unfolding consider_parents
  consider_parents-IsTrue [] st h = (st, refl, h)
  consider_parents-IsTrue ((parent_id, out) ∷ parents) st h =
      let (u, e, k) = consider_groups-IsTrue parent_id (members_from by_id out []) st h in
      let (t, e', k') = consider_parents-IsTrue parents u k in (t, rw (e, consider_parents) e', k')

-- What the rewritten graph holds, for the pills that stand in it.
pub record IsFolded (nodes : List KNode) (edges : List KEdge) (r : Rewritten) : Type 0 where
  pub frames : List (Text × Text)
  pub pills : List FoldNode
  pub bundles : List KEdge
  pub kept_nodes :
      r.nodes ≡ map (framed_node frames) (filter (λ n. not (is_hidden pills n.id)) nodes) ++ pills
  pub kept_edges :
      r.edges
      ≡ filter (λ e. not (is_hidden pills e.from) && not (is_hidden pills e.to)) edges ++ bundles
  pub bundled : map (λ b. b.to) bundles ≡ map (λ p. p.node.id) pills
  pub are_pills : All (λ p. p.node.kind ≡ collapse_kind) pills

filter-all : {A : Type 0} (p : A → Bool) (xs : List A) → ((x : A) → p x ≡ true) → filter p xs ≡ xs
filter-all p [] h = refl
filter-all p (x ∷ xs) h = rw (h x) (ap (λ l. x ∷ l) (filter-all p xs h))

filter_congr :
    {A : Type 0} (p q : A → Bool) (xs : List A) → ((x : A) → p x ≡ q x) → filter p xs ≡ filter q xs
filter_congr p q xs h = ap (λ f. filter f xs) (fun_ext h)

no_frames : (ns : List KNode) → map plain_node ns ≡ map (framed_node []) ns
unfolding lookup
no_frames ns = refl

rewrite-IsFolded :
    (nodes : List KNode) (edges : List KEdge) (st : Folding)
    → IsTrue st
    → IsFolded nodes edges (rewrite nodes edges st)
unfolding rewrite pill_ends pill_ids
rewrite-IsFolded nodes edges st t = elim (List-cases st.pills) [
  | inl nothing ↦ record {
    frames = [];
    pills = [];
    bundles = [];
    kept_nodes = rw nothing (
        no_frames nodes
        ∙ ap (λ l. map (framed_node []) l) (sym (filter-all _ nodes (λ n. refl)))
        ∙ sym (append-nil _));
    kept_edges = rw nothing (sym (filter-all _ edges (λ e. refl)) ∙ sym (append-nil _));
    bundled = refl;
    are_pills = tt;
  }
  | inr (p, ps, some_pills) ↦ record {
    frames = st.framed;
    pills = st.pills;
    bundles = st.pill_edges;
    kept_nodes = rw (ap is_nil some_pills) (
        ap (λ l. map (framed_node st.framed) l ++ st.pills)
          (filter_congr _ _ nodes (λ n. ap not (t.removes n.id))));
    kept_edges = rw (ap is_nil some_pills) (
        ap (λ l. l ++ st.pill_edges)
          (filter_congr _ _ edges (λ e. ground (arith, t.removes e.from, t.removes e.to))));
    bundled = t.bundles;
    are_pills = t.kinds;
  }
]

-- Whatever is expanded and prioritized, the folding returns. Its graph has the nodes for which no
-- folded pill stands, as they were but for their frames, and then the pills; the edges between such
-- nodes, and then one edge to each pill. A folded pill stands for the nodes that it lists as hidden
-- siblings and as hidden descendants.
pub fold_sibling_subtrees_lem :
    (by_name : KNode → KNode → Ordering) (nodes : List KNode) (edges : List KEdge)
    (expanded : List Text) (prioritize : Option (KNode → Bool))
    → (r : Rewritten) × (fold_sibling_subtrees by_name nodes edges expanded prioritize ≡ some r)
      × IsFolded nodes edges r
unfolding fold_sibling_subtrees
fold_sibling_subtrees_lem by_name nodes edges expanded prioritize =
    let by_id = index_ids nodes [] in
    let (t, e, k) =
      consider_parents-IsTrue by_name expanded prioritize edges by_id
        (child_edges_from by_id edges []) unfolded unfolded-IsTrue in
    (rewrite nodes edges t, rw (e, fold_sibling_subtrees) refl, rewrite-IsFolded nodes edges t k)

-- ===== src/Manifest/Folds/Regions.antt =====
-- Which lines `computeFolds` folds.
use kd.Common.{
  ℕ, suc, ◌+◌, ◌≡◌, refl, sym, ap, Bool, true, false, ◌||◌, Option, none, some, List, [], ◌∷◌, ◌++◌,
  map, Text, nat_eq, ◌==◌, drop, any, zero, subst, length, All, All-append, Bool-cases, arith, inl,
  inr, ◌⊎◌,
}
use kd.Manifest.Folds.{
  FoldRegion, LineMeta, line_meta, inside, body_end, region_end, region, folds_from, compute_folds,
}

-- A line that may stand in the region of a header.
abbrev pub Hides : LineMeta → LineMeta → Type 0
Hides header m = (m.blank || inside m header) ≡ true

-- The lines from here on do not go on with the region: all blank up to one outside it.
abbrev pub Stops : LineMeta → List LineMeta → Type 0
Stops header [] = Unit
Stops header (m ∷ ms) =
    (inside m header ≡ false) × (m.blank ≡ false) ⊎ (m.blank ≡ true) × Stops header ms

-- The lines behind a header, split at the end of its region; `solid` is the last of the body.
pub record IsBody (header : LineMeta) (rest : List LineMeta) (count : ℕ) : Type 0 where
  pub front : List LineMeta
  pub solid : LineMeta
  pub after : List LineMeta
  pub whole : front ++ solid ∷ after ≡ rest
  pub size : suc (length front) ≡ count
  pub hides : All (Hides header) front
  pub solid_inside : inside solid header ≡ true
  pub solid_shown : solid.blank ≡ false
  pub stops : Stops header after

IsBody-cons :
    {header : LineMeta} {rest : List LineMeta} {count : ℕ} (m : LineMeta)
    → Hides header m
    → IsBody header rest count
    → IsBody header (m ∷ rest) (suc count)
IsBody-cons m h b = record {
  front = m ∷ b.front;
  solid = b.solid;
  after = b.after;
  whole = ap (λ l. m ∷ l) b.whole;
  size = ap suc b.size;
  hides = (h, b.hides);
  solid_inside = b.solid_inside;
  solid_shown = b.solid_shown;
  stops = b.stops;
}

-- Either the result is the given one, and the region ends here, or it is the end of a body.
abbrev Found : LineMeta → ℕ → Option ℕ → List LineMeta → Option ℕ → Type 0
Found header k last ms r =
    (r ≡ last) × Stops header ms ⊎ ((n : ℕ) × (r ≡ some (k + n)) × IsBody header ms (suc n))

body_end-Found :
    (header : LineMeta) (k : ℕ) (last : Option ℕ) (ms : List LineMeta)
    → Found header k last ms (body_end header k last ms)
unfolding body_end
body_end-Found header k last [] = inl (refl, tt)
body_end-Found header k last (m ∷ ms) = elim (Bool-cases m.blank) [
  | inl blank ↦ elim (body_end-Found header (suc k) last ms) [
    | inl (e, stops) ↦ inl (ground arith, inr (blank, stops))
    | inr (n, e, body) ↦ inr (suc n, ground arith, IsBody-cons m (ground arith) body)
  ]
  | inr shown ↦ elim (Bool-cases (inside m header)) [
    | inl within ↦ elim (body_end-Found header (suc k) (some k) ms) [
      | inl (e, stops) ↦ inr (
        0,
        ground arith,
        record {
          front = [];
          solid = m;
          after = ms;
          whole = refl;
          size = refl;
          hides = tt;
          solid_inside = within;
          solid_shown = shown;
          stops = stops;
        },
      )
      | inr (n, e, body) ↦ inr (suc n, ground arith, IsBody-cons m (ground arith) body)
    ]
    | inr out ↦ inl (ground arith, inl (out, shown))
  ]
]

region_end-Found :
    (header : LineMeta) (j : ℕ) (ms : List LineMeta)
    → Found header j none ms (region_end header j ms)
unfolding region_end
region_end-Found header j [] = inl (refl, tt)
region_end-Found header j (m ∷ ms) = elim (Bool-cases m.blank) [
  | inl blank ↦ elim (region_end-Found header (suc j) ms) [
    | inl (e, stops) ↦ inl (ground arith, inr (blank, stops))
    | inr (n, e, body) ↦ inr (suc n, ground arith, IsBody-cons m (ground arith) body)
  ]
  | inr shown ↦ elim (Bool-cases (inside m header)) [
    | inl within ↦
        subst (Found header j none (m ∷ ms)) (ground arith) (body_end-Found header j none (m ∷ ms))
    | inr out ↦ inl (ground arith, inl (out, shown))
  ]
]

-- A region of the lines: its header, and the body behind it.
pub record IsFold (lines : List LineMeta) (r : FoldRegion) : Type 0 where
  pub header : LineMeta
  pub rest : List LineMeta
  pub at : drop r.header lines ≡ header ∷ rest
  pub header_shown : header.blank ≡ false
  pub body : IsBody header rest r.hidden_count
  pub end : r.end ≡ r.header + r.hidden_count

drop-suc :
    (n : ℕ) (all : List LineMeta) {m : LineMeta} {ms : List LineMeta}
    → drop n all ≡ m ∷ ms
    → drop (suc n) all ≡ ms
drop-suc zero [] h = cc
drop-suc zero (x ∷ xs) h = cc
drop-suc (suc n) [] h = cc
drop-suc (suc n) (x ∷ xs) h = drop-suc n xs h

region-IsFold :
    (all : List LineMeta) (i : ℕ) (m : LineMeta) (ms : List LineMeta)
    → drop i all ≡ m ∷ ms
    → m.blank ≡ false
    → (r : Option ℕ) → Found m (suc i) none ms r
    → All (IsFold all) (region i r)
region-IsFold all i m ms at shown r (inl (e, stops)) =
    subst (λ o. All (IsFold all) (region i o)) (sym e) tt
region-IsFold all i m ms at shown r (inr (n, e, body)) =
    let found : FoldRegion = record { header = i; end = i + suc n; hidden_count = suc n } in
    let fold : IsFold all found = record {
      header = m;
      rest = ms;
      at = at;
      header_shown = shown;
      body = body;
      end = refl;
    } in
    subst (All (IsFold all)) {x = found ∷ []} (ground arith) (fold, tt)

folds_from-IsFold :
    (all : List LineMeta) (i : ℕ) (ms : List LineMeta)
    → drop i all ≡ ms
    → All (IsFold all) (folds_from i ms)
unfolding folds_from
folds_from-IsFold all i [] at = tt
folds_from-IsFold all i (m ∷ ms) at = elim (Bool-cases m.blank) [
  | inl blank ↦
      subst (All (IsFold all)) (ground arith) (folds_from-IsFold all (suc i) ms (drop-suc i all at))
  | inr shown ↦ subst (All (IsFold all)) (ground arith) (
      All-append (IsFold all) (region i (region_end m (suc i) ms)) (folds_from (suc i) ms)
        (region-IsFold all i m ms at shown _ (region_end-Found m (suc i) ms))
        (folds_from-IsFold all (suc i) ms (drop-suc i all at)))
]

-- Each region that `computeFolds` gives has a header that is not blank and a body right behind it of
-- the stated length: every line of the body is blank or inside the header, its last line is inside and
-- not blank, and behind the body the next line that is not blank, if any, is outside.
pub compute_folds-IsFold :
    (lines : List Text) → All (IsFold (map line_meta lines)) (compute_folds lines)
unfolding compute_folds
compute_folds-IsFold lines = folds_from-IsFold (map line_meta lines) 0 (map line_meta lines) refl

-- Whether a region starts at a line.
abbrev pub folded_at : ℕ → List FoldRegion → Bool
folded_at k rs = any (λ r. r.header == k) rs

any-append :
    (k : ℕ) (a b : List FoldRegion) → folded_at k (a ++ b) ≡ (folded_at k a || folded_at k b)
any-append k [] b = refl
any-append k (r ∷ a) b = ground (arith, any-append k a b)

region-none :
    (i : ℕ) (m : LineMeta) (ms : List LineMeta) (r : Option ℕ)
    → Found m (suc i) none ms r
    → folded_at i (region i r) ≡ false
    → Stops m ms
region-none i m ms r (inl (e, stops)) h = stops
region-none i m ms r (inr (n, e, body)) h = absurd (ground arith)

drop-nil : (d : ℕ) {m : LineMeta} {rest : List LineMeta} → drop d [] ≡ m ∷ rest → ⊥
drop-nil zero h = cc
drop-nil (suc d) h = cc

abbrev StopsHead : List LineMeta → Type 0
StopsHead [] = Unit
StopsHead (x ∷ xs) = Stops x xs

folds_from_complete :
    (i d k : ℕ) (ms : List LineMeta) (m : LineMeta) (rest : List LineMeta)
    → k ≡ i + d
    → drop d ms ≡ m ∷ rest
    → m.blank ≡ false
    → folded_at k (folds_from i ms) ≡ false
    → Stops m rest
unfolding folds_from
folds_from_complete i d k [] m rest q at shown h = absurd (drop-nil d at)
folds_from_complete i zero k (x ∷ xs) m rest q at shown h = subst StopsHead at (
    region-none i x xs (region_end x (suc i) xs) (region_end-Found x (suc i) xs)
      (ground (arith, any-append i (region i (region_end x (suc i) xs)) (folds_from (suc i) xs))))
folds_from_complete i (suc d) k (x ∷ xs) m rest q at shown h =
    folds_from_complete (suc i) d k xs m rest (omega arith) at shown
      (ground (arith, any-append k (region i (region_end x (suc i) xs)) (folds_from (suc i) xs)))

-- A line that is not blank and starts no region has nothing to fold: the next line that is not blank,
-- if any, is outside it.
pub compute_folds_complete :
    (lines : List Text) (k : ℕ) (m : LineMeta) (rest : List LineMeta)
    → drop k (map line_meta lines) ≡ m ∷ rest
    → m.blank ≡ false
    → folded_at k (compute_folds lines) ≡ false
    → Stops m rest
unfolding compute_folds
compute_folds_complete lines k m rest =
    folds_from_complete 0 k k (map line_meta lines) m rest (omega arith)

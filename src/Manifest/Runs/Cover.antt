-- ===== src/Manifest/Runs/Cover.antt =====
-- The merged runs show the texts of the runs.
use kd.Common.{
  ℕ, zero, suc, ◌+◌, ◌-◌, ◌≤◌, ◌≡◌, refl, sym, ap, subst, ◌∙◌, List, [], ◌∷◌, ◌++◌, Text, take,
  drop, length, length-drop, leb, min, take_all, take-append_left, take-append_right,
  drop-append_left, drop-append_right, drop-drop, append-nil, Bool-cases, inl, inr, arith,
}
use kd.Manifest.Scalar.{Token, shown}
use kd.Manifest.Yaml.{token}
use kd.Manifest.Runs.{Run, MatchRun, Cursor, take_spans, merge_from, merge_match_runs}

-- The text from the cursor on.
abbrev left : ℕ → List Token → Text
left to [] = []
left to (t ∷ ts) = drop to t.text ++ shown ts

abbrev Fits : ℕ → List Token → Type 0
Fits to [] = Unit
Fits to (t ∷ ts) = to ≤ length t.text

record Takes (to r : ℕ) (ts : List Token) (c : Cursor) : Type 0 where
  spans : shown c.spans ≡ take r (left to ts)
  rest : left c.offset c.tokens ≡ drop r (left to ts)
  fits : Fits c.offset c.tokens

left_zero : (ts : List Token) → (left 0 ts ≡ shown ts) × Fits 0 ts
left_zero [] = (refl, tt)
left_zero (t ∷ ts) = (refl, omega arith)

-- The token at the cursor is used up, and the loop goes on with the next one.
over-Takes :
    (t : Token) (ts : List Token) (to n r : ℕ) (next : Cursor)
    → length t.text ≡ to + n
    → n ≤ r
    → Takes 0 (r - n) ts next
    → Takes to r (t ∷ ts) (record {
      spans = token (take n (drop to t.text)) t.type ∷ next.spans;
      tokens = next.tokens;
      offset = next.offset;
    })
over-Takes t ts to n r next size small h =
    let here = drop to t.text in
    let whole : length here ≡ n = omega (arith, length-drop to t.text) in
    let split : r ≡ length here + (r - n) = omega arith in
    record {
      spans =
          ap (λ x. x ++ shown next.spans) (take_all n here (omega arith))
          ∙ ap (λ x. here ++ x) (h.spans ∙ ap (take (r - n)) (left_zero ts).0)
          ∙ sym (take-append_right (r - n) here (shown ts))
          ∙ ap (λ (k : ℕ). take k (here ++ shown ts)) (sym split);
      rest =
          h.rest
          ∙ ap (drop (r - n)) (left_zero ts).0
          ∙ sym (drop-append_right (r - n) here (shown ts))
          ∙ ap (λ (k : ℕ). drop k (here ++ shown ts)) (sym split);
      fits = h.fits;
    }

-- The run ends inside the token at the cursor.
within-Takes :
    (t : Token) (ts : List Token) (to r : ℕ)
    → to + r ≤ length t.text
    → Takes to r (t ∷ ts) (record {
      spans = token (take r (drop to t.text)) t.type ∷ [];
      tokens = t ∷ ts;
      offset = to + r;
    })
within-Takes t ts to r h =
    let here = drop to t.text in
    let small : r ≤ length here = omega (arith, length-drop to t.text) in
    record {
      spans = append-nil _ ∙ sym (take-append_left r here (shown ts) small);
      rest =
          ap (λ x. x ++ shown ts) (sym (drop-drop to r t.text))
          ∙ sym (drop-append_left r here (shown ts) small);
      fits = h;
    }

take_spans-Takes : (ts : List Token) (to r : ℕ) → Fits to ts → Takes to r ts (take_spans to r ts)
unfolding take_spans
take_spans-Takes [] to zero f = record { spans = refl; rest = refl; fits = f }
take_spans-Takes (t ∷ ts) to zero f = record { spans = refl; rest = refl; fits = f }
take_spans-Takes [] to (suc r) f = record { spans = refl; rest = refl; fits = tt }
take_spans-Takes (t ∷ ts) to (suc r) f =
    elim (Bool-cases (leb (length t.text) (to + min (length t.text - to) (suc r)))) [
      | inl done ↦
          let n = min (length t.text - to) (suc r) in
          subst (Takes to (suc r) (t ∷ ts)) (ground arith) (
            over-Takes t ts to n (suc r) (take_spans 0 (suc r - n) ts) (ground arith) (omega arith)
              (take_spans-Takes ts 0 (suc r - n) (left_zero ts).1))
      | inr more ↦
          subst (Takes to (suc r) (t ∷ ts)) (ground arith)
            (within-Takes t ts to (suc r) (ground arith))
    ]

-- Each merged run has the match flag of its run, and its spans show the text of the run.
abbrev pub Covers : List Run → List MatchRun → Type 0
Covers [] [] = Unit
Covers [] (_ ∷ _) = ⊥
Covers (_ ∷ _) [] = ⊥
Covers (r ∷ rs) (m ∷ ms) = (m.match ≡ r.match) × (shown m.spans ≡ r.text) × Covers rs ms

abbrev pub run_texts : List Run → Text
run_texts [] = []
run_texts (r ∷ rs) = r.text ++ run_texts rs

merge_from-Covers :
    (to : ℕ) (ts : List Token) (rs : List Run)
    → Fits to ts
    → left to ts ≡ run_texts rs
    → Covers rs (merge_from to ts rs)
unfolding merge_from
merge_from-Covers to ts [] f h = tt
merge_from-Covers to ts (r ∷ rs) f h =
    let takes = take_spans-Takes ts to (length r.text) f in
    let whole : length r.text ≡ length r.text + 0 = omega arith in
    let cut_take : take (length r.text) (r.text ++ run_texts rs) ≡ r.text =
      ap (λ (k : ℕ). take k (r.text ++ run_texts rs)) whole
      ∙ take-append_right 0 r.text (run_texts rs)
      ∙ append-nil r.text in
    let cut_drop : drop (length r.text) (r.text ++ run_texts rs) ≡ run_texts rs =
      ap (λ (k : ℕ). drop k (r.text ++ run_texts rs)) whole
      ∙ drop-append_right 0 r.text (run_texts rs) in
    (
      refl,
      takes.spans ∙ ap (take (length r.text)) h ∙ cut_take,
      merge_from-Covers (take_spans to (length r.text) ts).offset
          (take_spans to (length r.text) ts).tokens rs takes.fits
          (takes.rest ∙ ap (drop (length r.text)) h ∙ cut_drop),
    )

-- If the segments of the search cover the text of the tokens exactly, then merging keeps the segments
-- with their match flags, and the spans of each show exactly its text.
pub merge_match_runs-Covers :
    (ts : List Token) (rs : List Run) → shown ts ≡ run_texts rs → Covers rs (merge_match_runs ts rs)
unfolding merge_match_runs
merge_match_runs-Covers ts rs h =
    let (zero_left, fits) = left_zero ts in merge_from-Covers 0 ts rs fits (zero_left ∙ h)

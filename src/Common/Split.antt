-- ===== src/Common/Split.antt =====
-- Splitting a text that is put together from parts without the separator.
use Prim.Native.Nat.{ℕ}
use mathlib.Core.Path.{◌≡◌, refl, ap, ◌∙◌}
use mathlib.Core.List.{List, [], ◌∷◌, ◌++◌}
use native.Mathlib.Omega.{arith}
use kd.Common.Lists.{All}
use kd.Common.Tests.{nat_beq_iff}
use kd.Common.Strings.{Text, Lacks, split_unit, join_unit}

pub split_unit-single : (sep : ℕ) (p : Text) → Lacks sep p → split_unit sep p ≡ p ∷ []
unfolding split_unit
split_unit-single sep [] h = refl
split_unit-single sep (c ∷ p) h =
    ground (arith, h.0, nat_beq_iff c sep, split_unit-single sep p h.1)

pub split_unit-append :
    (sep : ℕ) (p s : Text) → Lacks sep p → split_unit sep (p ++ sep ∷ s) ≡ p ∷ split_unit sep s
unfolding split_unit
split_unit-append sep [] s h = ground (arith, nat_beq_iff sep sep)
split_unit-append sep (c ∷ p) s h =
    ground (arith, h.0, nat_beq_iff c sep, split_unit-append sep p s h.1)

-- Parts without the separator come back from the joined text.
pub split-join :
    (sep : ℕ) (p : Text) (ps : List Text)
    → All (Lacks sep) (p ∷ ps)
    → split_unit sep (join_unit sep (p ∷ ps)) ≡ p ∷ ps
unfolding join_unit
split-join sep p [] h = split_unit-single sep p h.0
split-join sep p (q ∷ ps) h =
    split_unit-append sep p (join_unit sep (q ∷ ps)) h.0 ∙ ap (λ t. p ∷ t) (split-join sep q ps h.1)

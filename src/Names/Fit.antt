-- ===== src/Names/Fit.antt =====
-- The room that the texts of a card take (web/src/names.ts).
use kd.Common.{
  ℕ, ◌+◌, ◌-◌, ◌/◌, ◌≤◌, Option, [], ◌∷◌, Text, text_eq, length, arith, length-append, length-take,
  length-drop, take, drop,
}
use kd.Names.{
  ellipsis, relative_name, middle_truncate, card_name, card_name_max, card_status, card_status_max,
}

-- At most `max` code units are left.
pub length-middle_truncate : (s : Text) (max : ℕ) → 1 ≤ max → length (middle_truncate s max) ≤ max
unfolding middle_truncate
length-middle_truncate s max h = ground (
  arith,
  length-append (take ((max - 1 + 1) / 2) s) (ellipsis ∷ drop (length s - (max - 1) / 2) s),
  length-take ((max - 1 + 1) / 2) s,
  length-drop (length s - (max - 1) / 2) s,
)

-- Whatever the name, its owner's name and the status are, a card's name has at most 22 code units
-- and its status at most 24.
pub card-fits :
    (name status : Text) (owner_name : Option Text)
    → (length (card_name name owner_name) ≤ card_name_max)
      × (length (card_status status) ≤ card_status_max)
unfolding card_name card_status
card-fits name status owner_name = ground (
  arith,
  length-middle_truncate name 22 (omega arith),
  length-middle_truncate (b'-' ∷ relative_name name owner_name) 21 (omega arith),
  length-append (take 23 status) (ellipsis ∷ []),
  length-take 23 status,
)

-- ===== src/LogResume/Backed.antt =====
-- The counts of web/src/logResume.ts never exceed what was shown.
use kd.Common.{
  suc, ◌≤◌, ◌≡◌, refl, sym, ap, ◌∙◌, true, Option, none, some, List, [], ◌∷◌, Text, text_eq,
  text_beq_iff, ◌==◌, ==_refl, ltb, length, lookup, insert, erase, arith, Bool-cases, Option-cases,
  inl, inr, All, subst,
}
use kd.Types.{truthy}
use kd.LogResume.{
  LogEntry, SourceResume, text_ltb, log_buffer_capacity, count_of, set_count, current, advance,
  remember, evict, source_of,
}
use kd.LogResume.Resent.{is_copy, count-set_count}
use kd.LogResume.Counting.{copies}

-- The record of a source counts no line more often than it was shown.
abbrev pub IsBacked : List LogEntry → Text × SourceResume → Type 0
IsBacked displayed p = (line : Text) → count_of line p.1 ≤ copies p.0 p.1.stamp line displayed

All-erase :
    (P : Text × SourceResume → Type 0) (k : Text) (m : List (Text × SourceResume))
    → All P m
    → All P (erase k m)
unfolding erase
All-erase P k [] h = tt
All-erase P k ((j, v) ∷ m) h = elim (Bool-cases (j == k)) [
  | inl e ↦ rw e (All-erase P k m h.1)
  | inr n ↦ rw n (h.0, All-erase P k m h.1)
]

pub All-insert :
    (P : Text × SourceResume → Type 0) (k : Text) (v : SourceResume)
    (m : List (Text × SourceResume))
    → P (k, v)
    → All P m
    → All P (insert k v m)
unfolding insert
All-insert P k v [] p h = (p, tt)
All-insert P k v ((j, w) ∷ m) p h = elim (Bool-cases (j == k)) [
  | inl e ↦ rw e (p, h.1)
  | inr n ↦ rw n (h.0, All-insert P k v m p h.1)
]

All-evict :
    (P : Text × SourceResume → Type 0) (m : List (Text × SourceResume)) → All P m → All P (evict m)
All-evict P [] h = h
All-evict P (x ∷ m) h = elim (Bool-cases (ltb log_buffer_capacity (length (x ∷ m)))) [
  | inl e ↦ rw e h.1
  | inr n ↦ rw n h
]

pub All-lookup :
    (P : Text × SourceResume → Type 0) (k : Text) (v : SourceResume)
    (m : List (Text × SourceResume))
    → All P m
    → lookup k m ≡ some v
    → P (k, v)
unfolding lookup
All-lookup P k v [] h e = cc
All-lookup P k v ((j, w) ∷ m) h e = elim (Bool-cases (j == k)) [
  | inl t ↦
      let jk : j ≡ k = (text_beq_iff j k).0 t in
      let wv : w ≡ v = ground (arith, e, t) in
      subst (λ x. P (x, v)) jk (subst (λ x. P (j, x)) wv h.0)
  | inr n ↦ All-lookup P k v m h.1 (ground (arith, e, n))
]

pub copies_grow :
    (e : LogEntry) (displayed : List LogEntry) (p : Text × SourceResume)
    → IsBacked displayed p
    → IsBacked (e ∷ displayed) p
unfolding copies
copies_grow e displayed p h line = omega (arith, h line)

current-IsBacked :
    (displayed : List LogEntry) (source time : Text) (o : Option SourceResume)
    → ((r : SourceResume) → o ≡ some r → IsBacked displayed (source, r))
    → IsBacked displayed (source, current o time)
unfolding lookup
current-IsBacked displayed source time none h = λ line. omega arith
current-IsBacked displayed source time (some r) h = elim (Bool-cases (text_ltb r.stamp time)) [
  | inl e ↦ rw e (λ line. omega arith)
  | inr n ↦ rw n (h r refl)
]

counted-IsBacked :
    (displayed : List LogEntry) (e : LogEntry) (time : Text) (r : SourceResume)
    → truthy e.time ≡ some time
    → time ≡ r.stamp
    → IsBacked displayed (source_of e, r)
    → IsBacked (e ∷ displayed) (source_of e, set_count e.line (suc (count_of e.line r)) r)
unfolding copies
counted-IsBacked displayed e time r m st h line = elim (Bool-cases (e.line == line)) [
  | inl y ↦
      let c : is_copy (source_of e) r.stamp line e ≡ true =
        ground (arith, m, st, y, ==_refl (source_of e), text_beq_iff time r.stamp) in
      let same : e.line ≡ line = (text_beq_iff e.line line).0 y in
      let k : count_of line (set_count e.line (suc (count_of e.line r)) r)
          ≡ suc (count_of e.line r) =
        ground (arith, count-set_count e.line line (suc (count_of e.line r)) r, y) in
      let j : count_of e.line r ≡ count_of line r = ap (λ x. count_of x r) same in
      rw c (omega (arith, h line))
  | inr n ↦
      let k : count_of line (set_count e.line (suc (count_of e.line r)) r) ≡ count_of line r =
        ground (arith, count-set_count e.line line (suc (count_of e.line r)) r, n) in
      omega (arith, h line)
]

pub advance-IsBacked :
    (displayed : List LogEntry) (e : LogEntry) (o : Option SourceResume) (r : SourceResume)
    → ((q : SourceResume) → o ≡ some q → IsBacked displayed (source_of e, q))
    → advance o (truthy e.time) e.line ≡ some r
    → IsBacked (e ∷ displayed) (source_of e, r)
unfolding advance
advance-IsBacked displayed e o r h k = elim (Option-cases (truthy e.time)) [
  | inl n ↦
      let k' : o ≡ some r = ap (λ t. advance o t e.line) (sym n) ∙ k in
      copies_grow e displayed (source_of e, r) (h r k')
  | inr (time, m) ↦
      let now = current o time in
      let b = current-IsBacked displayed (source_of e) time o h in
      let k' : advance o (some time) e.line ≡ some r = ap (λ t. advance o t e.line) (sym m) ∙ k in
      elim (Bool-cases (time == now.stamp)) [
        | inl y ↦
            let q : set_count e.line (suc (count_of e.line now)) now ≡ r = ground (arith, k', y) in
            subst (λ x. IsBacked (e ∷ displayed) (source_of e, x)) q
              (counted-IsBacked displayed e time now m ((text_beq_iff time now.stamp).0 y) b)
        | inr n ↦
            let q : now ≡ r = ground (arith, k', n) in
            subst (λ x. IsBacked (e ∷ displayed) (source_of e, x)) q
              (copies_grow e displayed (source_of e, now) b)
      ]
]

pub remember-All :
    (P : Text × SourceResume → Type 0) (k : Text) (o : Option SourceResume)
    (m : List (Text × SourceResume))
    → ((r : SourceResume) → o ≡ some r → P (k, r))
    → All P m
    → All P (remember k o m)
unfolding remember
remember-All P k none m h a = a
remember-All P k (some r) m h a =
    All-evict P (insert k r (erase k m))
      (All-insert P k r (erase k m) (h r refl) (All-erase P k m a))

-- ===== src/Timeline.antt =====
-- linearize/timeline.go: where operations with timestamps of their own are placed. An int64 is an
-- integer in range, `none` is the panic, and `pending` is linearize.Pending.
use torx.Base.{
  ℕ, ◌+◌, ◌-◌, ◌*◌, ◌^◌, ◌/◌, ◌≤◌, ◌<◌, ◌≡◌, ◌⊎◌, ◌↔◌, inl, inr, Option, none, some, Bool, true,
  not, ◌||◌, if◌then◌else◌, ltb, arith, Option-cases,
}
use torx.Base.Int.{ℤ, pos_part, neg_part, ltb_ℤ}

abbrev pub pending : ℕ
pending = 2 ^ 63 - 1

abbrev pub max_offset : ℕ
max_offset = (pending - 3) / 2

pub record Timeline : Type 0 where
  pub base : ℤ
  pub inclusive : Bool

-- `ts - l.Base`, of timestamps with `l.Base <= ts`, as the int64 subtraction gives it: a
-- difference of 2^63 or more wraps to a negative number, which the code tests for.
distance : ℤ → ℤ → ℕ
distance ts base = pos_part ts + neg_part base - (pos_part base + neg_part ts)

unfoldable pub offset : Timeline → ℤ → Option ℕ
unfolding distance
offset l ts =
    if ltb_ℤ ts l.base
    then none
    else if ltb pending (distance ts l.base) || ltb max_offset (distance ts l.base)
    then none
    else some (distance ts l.base)

abbrev pub place : Option ℕ → (ℕ → ℕ × ℕ) → Option (ℕ × ℕ)
place none f = none
place (some d) f = some (f d)

unfoldable pub write : Timeline → ℤ → Option (ℕ × ℕ)
unfolding offset
write l ts = place (offset l ts) (λ d. (2 * d + 1, 2 * d + 1))

unfoldable pub read : Timeline → ℤ → Option (ℕ × ℕ)
unfolding offset
read l ts =
    place (offset l ts) λ d. let at : ℕ = if l.inclusive then 2 * d + 2 else 2 * d in (at, at)

unfoldable pub unknown : Timeline → ℤ → Option (ℕ × ℕ)
unfolding write
unknown l ts = elim (write l ts) [ none ↦ none | some (call, _) ↦ some (call, pending) ]

offset_lem :
    (l : Timeline) (ts : ℤ) (d : ℕ)
    → offset l ts ≡ some d
    → (pos_part l.base + neg_part ts + d ≡ pos_part ts + neg_part l.base) × (d ≤ max_offset)
unfolding offset
offset_lem l ts d h = ground arith

-- A read placed at a snapshot comes after the write placed at a timestamp just when the timestamp
-- is before the snapshot, or, in an inclusive timeline, at it; and where the write does not come
-- before the read it comes after it, never at the same place.
pub read-write_order :
    (l : Timeline) (snapshot ts : ℤ) (r w : ℕ × ℕ)
    → read l snapshot ≡ some r
    → write l ts ≡ some w
    → ((w.1 < r.0) ↔ ((if l.inclusive then not (ltb_ℤ snapshot ts) else ltb_ℤ ts snapshot) ≡ true))
      × ((w.1 < r.0) ⊎ (r.1 < w.0))
unfolding read write
read-write_order l snapshot ts r w h k = elim (Option-cases (offset l snapshot)) [
  | inl e ↦ absurd (let gone : place (offset l snapshot) _ ≡ some r = h in ground arith)
  | inr (d, e) ↦ elim (Option-cases (offset l ts)) [
    | inl f ↦ absurd (ground arith)
    | inr (c, f) ↦ let a = offset_lem l snapshot d e in let b = offset_lem l ts c f in ground arith
  ]
]

-- A read or a write is placed at one time, and the time is below `pending`, so an operation with
-- an answer is never taken for one without.
pub read-write_below :
    (l : Timeline) (ts : ℤ) (p : ℕ × ℕ)
    → (read l ts ≡ some p) ⊎ (write l ts ≡ some p)
    → (p.0 ≡ p.1) × (p.1 < pending)
unfolding read write
read-write_below l ts p h = ground arith

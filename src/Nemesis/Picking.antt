-- ===== src/Nemesis/Picking.antt =====
-- nemesis/nemesis.go: which fault a draw picks, and how long it is held.
use torx.Base.{
  ℕ, ◌+◌, ◌-◌, ◌≤◌, ◌<◌, ◌≡◌, ◌⊎◌, inl, inr, refl, ap, List, [], ◌∷◌, ◌++◌, ltb, arith, Bool-cases,
  ltb→lt, Bool, not, ◌&&◌, ◌||◌, ◌==◌, Option, none, some,
}
use torx.Nemesis.{Fault, Schedule, total_weight, pick_from, between, hold_time, sleep}

-- A draw below the total weight picks the fault in whose share it lies: the share of a fault
-- starts at the weight of the faults before it and is as long as its weight, so a fault of weight
-- 0 is never picked.
pub pick_from_share :
    (r : ℕ) (fs : List Fault) (last : Fault)
    → r < total_weight fs
    → (before : List Fault) × (f : Fault) × (rest : List Fault) × (fs ≡ before ++ f ∷ rest)
      × (pick_from r fs last ≡ f)
      × (total_weight before ≤ r)
      × (r < total_weight before + f.weight)
unfolding pick_from total_weight
pick_from_share r [] last h = elim h [ ]
pick_from_share r (f ∷ fs) last h = elim (Bool-cases (ltb r f.weight)) [
  | inl here ↦
      ([], f, fs, refl, rw (here, pick_from), omega arith, omega (arith, ltb→lt r f.weight here))
  | inr later ↦
      let (before, g, rest, e, p, lo, hi) = pick_from_share (r - f.weight) fs last (ground arith) in
      (f ∷ before, g, rest, ap (◌∷◌ f) e, rw (later, pick_from) p, ground arith, ground arith)
]

-- No longer than until the context ends, if it does.
abbrev pub UpTo : Option ℕ → ℕ → Type 0
UpTo none w = Unit
UpTo (some t) w = w ≤ t

sleep_cut :
    (timer_first : Bool) (ended : Option ℕ) (d : ℕ)
    → let slept = (sleep timer_first ended d).0 in
      ((slept ≡ d) ⊎ ((ended ≡ some slept) × (slept ≤ d))) × UpTo ended slept
unfolding sleep
sleep_cut timer_first none d = (inl refl, tt)
sleep_cut timer_first (some t) d = elim (Bool-cases (ltb t d || (t == d && not timer_first))) [
  | inl cut ↦ rw cut (inr (refl, ground arith), omega arith)
  | inr whole ↦ rw whole (inl refl, ground arith)
]

-- A hold is drawn from HoldMin up to HoldMax, or, only where the draw of one in LongEvery is 0, from
-- HoldMax up to LongHold, if HoldMin is below HoldMax and each draw is below its bound. The sleep
-- that holds the fault lasts as long as was drawn, or ends with the context before that or just
-- then, and never goes on beyond the end of the context.
pub hold_time_bounds :
    (draw : ℕ → ℕ) (odds : ℕ) (s : Schedule) (timer_first : Bool) (ended : Option ℕ)
    → ((n : ℕ) → 0 < n → draw n < n)
    → s.hold_min < s.hold_max
    → let drawn = hold_time draw odds s in
      let slept = (sleep timer_first ended drawn).0 in
      (((s.hold_min ≤ drawn) × (drawn < s.hold_max))
        ⊎ ((odds ≡ 0) × (0 < s.long_every) × (s.hold_max ≤ drawn) × (drawn < s.long_hold)))
      × ((slept ≡ drawn) ⊎ ((ended ≡ some slept) × (slept ≤ drawn)))
      × UpTo ended slept
unfolding hold_time between
hold_time_bounds draw odds s timer_first ended below lt =
    let (cut, up) = sleep_cut timer_first ended (hold_time draw odds s) in
    (ground (arith, below (s.hold_max - s.hold_min), below (s.long_hold - s.hold_max)), cut, up)

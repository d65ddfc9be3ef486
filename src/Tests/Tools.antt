-- ===== src/Tests/Tools.antt =====
-- Runs of the rest on small inputs: a history of a register, the rounds of a nemesis, leased ports,
-- placed operations and an error with a cause.
use torx.Base.{
  ℕ, zero, suc, ◌+◌, ◌≤◌, ◌<◌, ◌≡◌, ◌⊎◌, ◌↔◌, inl, inr, refl, List, [], ◌∷◌, ◌++◌, Option, none,
  some, Bool, true, false, not, ◌||◌, length, All, arith, ◌==◌, ltb,
}
use torx.Base.Int.{pos, ltb_ℤ}
use torx.Errors.{allocation, Error, sentinel, is, plain, append, err}
use torx.Errors.Discovery.{is_maybe, is-err-append}
use torx.Ports.{
  PortAllocator, port, failed, lease, taken, release, allocate_port, max_port_attempts,
}
use torx.Ports.Leases.{OnlyTakes, allocate_port_lem, taken-release-lease}
use torx.Timeline.{Timeline, read, write, read-write_order, read-write_below, pending}
use torx.Nemesis.{
  Fault, Schedule, Round, Event, total_weight, pick_from, hold_time, sleep, held, windows, run,
}
use torx.Nemesis.Picking.{UpTo, pick_from_share, hold_time_bounds}
use torx.Nemesis.Holding.{hold_call, release_call, calls, idle, outstanding, held_while_outstanding}
use torx.Nemesis.Windows.{window_keys, injected_keys, windows-keys}
use torx.Nemesis.Closing.{run_closes_windows}
use torx.Nemesis.Pairing.{IsClosed, Paired}
use torx.Linearize.{Op, Model, Result, ok, link, group_of}
use torx.Linearize.Search.{check_within, search}
use torx.Linearize.Verdict.{Backed, check_within-ok}
use torx.Linearize.Ends.{cost, check_within-total}

abbrev ports : PortAllocator
ports = record { host = ""; range_min = 7000; range_max = 7002; leased = 7000 ∷ [] }

abbrev no_probe : ℕ → Option ℕ
no_probe _ = none

allocate_port_example :
    ((q : ℕ) × (b : PortAllocator) × (allocate_port no_probe ports ≡ (b, port q))
      × OnlyTakes ports q b
      × (taken ports q ≡ false)
      × (7000 < 7002
          → (7000 ≤ q) × (q < 7002) × ((k : ℕ) → 7000 ≤ k → k < q → taken ports k ≡ true))
      × (7002 ≤ 7000 → (j : ℕ) × (j < max_port_attempts) × (no_probe j ≡ some q)))
    ⊎ ((e : Error) × (allocate_port no_probe ports ≡ (ports, failed e))
        × (is allocation e ≡ true)
        × (7000 < 7002 → (k : ℕ) → 7000 ≤ k → k < 7002 → taken ports k ≡ true))
allocate_port_example = allocate_port_lem no_probe ports

taken-release-lease_example : taken (release (lease ports 7001) 7000) 7001 ≡ true
taken-release-lease_example = taken-release-lease ports 7001 7000 7001

-- A register of numbers: some value is written, none is a read.
abbrev register : Model ℕ (Option ℕ) ℕ
register = record {
  init = 0;
  step = λ s i o. elim i [ none ↦ (s == o, s) | some v ↦ (true, v) ];
  same = none;
}

abbrev write_at : ℕ → ℕ → ℕ → Op (Option ℕ) ℕ
write_at from to v = record {
  client = pos 0;
  call = pos from;
  return = pos to;
  group = pos 0;
  input = some v;
  output = 0;
}

abbrev read_at : ℕ → ℕ → ℕ → Op (Option ℕ) ℕ
read_at from to v = record {
  client = pos 1;
  call = pos from;
  return = pos to;
  group = pos 0;
  input = none;
  output = v;
}

-- A read that sees a write that has not returned.
abbrev history : List (Op (Option ℕ) ℕ)
history = write_at 1 6 5 ∷ read_at 2 4 5 ∷ []

abbrev no_hash : List Bool → ℕ
no_hash _ = 0

answered :
    check_within register (λ a b. a == b) no_hash (λ _. false) 0 history 40
    ≡ some (record {
      outcome = ok;
      longest = [];
      state = none;
      stuck = none;
      explored = 3;
      error = none;
    })
unfolding check_within link search group_of
answered = refl

check_within-ok_example : Backed register (λ a b. a == b) no_hash (λ _. false) 0 history
check_within-ok_example =
    check_within-ok register (λ a b. a == b) no_hash (λ _. false) 0 history 40
      (record {
        outcome = ok;
        longest = [];
        state = none;
        stuck = none;
        explored = 3;
        error = none;
      })
      answered refl

check_within-total_example :
    (r : Result ℕ) × (check_within register
        (λ a b. a == b)
        no_hash
        (λ _. false)
        0
        history
        (suc (cost (length (link history))))
      ≡ some r)
check_within-total_example =
    check_within-total register (λ a b. a == b) no_hash (λ _. false) 0 history
      (suc (cost (length (link history)))) (omega arith)

abbrev calm : Schedule
calm = record {
  quiet_min = 1;
  quiet_max = 2;
  hold_min = 2;
  hold_max = 5;
  long_hold = 9;
  long_every = 4;
}

abbrev partition : Fault
partition = record { name = "partition"; weight = 2 }

abbrev kill : Fault
kill = record { name = "kill"; weight = 3 }

abbrev faults : List Fault
faults = partition ∷ kill ∷ []

below_total : 3 < total_weight faults
unfolding total_weight
below_total = omega arith

pick_from_share_example :
    (before : List Fault) × (f : Fault) × (rest : List Fault) × (faults ≡ before ++ f ∷ rest)
    × (pick_from 3 faults kill ≡ f)
    × (total_weight before ≤ 3)
    × (3 < total_weight before + f.weight)
pick_from_share_example = pick_from_share 3 faults kill below_total

half : ℕ → ℕ
half zero = zero
half (suc n) = n

half-below : (n : ℕ) → 0 < n → half n < n
unfolding half
half-below zero h = absurd (omega arith)
half-below (suc n) h = omega arith

hold_time_bounds_example :
    let drawn = hold_time half zero calm in
    let slept = (sleep true (some 1) drawn).0 in
    (((2 ≤ drawn) × (drawn < 5)) ⊎ ((zero ≡ 0) × (0 < 4) × (5 ≤ drawn) × (drawn < 9)))
    × ((slept ≡ drawn) ⊎ ((some (suc zero) ≡ some slept) × (slept ≤ drawn)))
    × UpTo (some 1) slept
hold_time_bounds_example = hold_time_bounds half zero calm true (some 1) half-below (omega arith)

held_while_outstanding_example :
    held
      (calls idle (
        hold_call ("a" ∷ [])
        ∷ hold_call ("a" ∷ "b" ∷ [])
        ∷ release_call 0
        ∷ release_call 0
        ∷ [])).holds
      "a"
    ≡ ltb 0 (
        outstanding "a"
          (calls idle (
            hold_call ("a" ∷ [])
            ∷ hold_call ("a" ∷ "b" ∷ [])
            ∷ release_call 0
            ∷ release_call 0
            ∷ [])).tokens)
held_while_outstanding_example =
    held_while_outstanding
      (hold_call ("a" ∷ []) ∷ hold_call ("a" ∷ "b" ∷ []) ∷ release_call 0 ∷ release_call 0 ∷ []) "a"

abbrev round : ℕ → Round
round r = record {
  ended_resting = false;
  ended_before = false;
  draw = r;
  target = "n1";
  inject_error = none;
  healing = some none;
  inject_start = 1;
  inject_end = 2;
  heal_start = 5;
  heal_end = 6;
}

run_closes_windows_example :
    Paired
      (run faults kill (round 0 ∷ round 4 ∷ []))
      (windows (run faults kill (round 0 ∷ round 4 ∷ [])))
    × All IsClosed (windows (run faults kill (round 0 ∷ round 4 ∷ [])))
run_closes_windows_example =
    run_closes_windows faults kill (round 0 ∷ round 4 ∷ []) (inr refl, (inr refl, tt))

abbrev events_seen : List Event
events_seen =
    record {
      fault = "kill";
      heal = false;
      target = "n1";
      start = 1;
      finish = 2;
      held = true;
      error = none;
    }
    ∷ record {
      fault = "kill";
      heal = true;
      target = "n1";
      start = 4;
      finish = 5;
      held = false;
      error = none;
    }
    ∷ []

windows-keys_example : window_keys (windows events_seen) ≡ injected_keys events_seen
windows-keys_example = windows-keys events_seen

abbrev log : Timeline
log = record { base = pos 100; inclusive = true }

read_at_7 : read log (pos 107) ≡ some (16, 16)
unfolding read
read_at_7 = refl

write_at_7 : write log (pos 107) ≡ some (15, 15)
unfolding write
write_at_7 = refl

read-write_order_example :
    ((15 < 16) ↔ (not (ltb_ℤ (pos 107) (pos 107)) ≡ true)) × ((15 < 16) ⊎ (16 < 15))
read-write_order_example =
    read-write_order log (pos 107) (pos 107) (16, 16) (15, 15) read_at_7 write_at_7

abbrev spot : ℕ × ℕ
spot = (16, 16)

read-write_below_example : (spot.0 ≡ spot.1) × (spot.1 < pending)
read-write_below_example =
    let at : read log (pos 107) ≡ some spot = read_at_7 in
    read-write_below log (pos 107) spot (inl at)

is-err-append_example :
    is_maybe allocation
      (err (append (record { errs = plain "x" ∷ [] }) (some (sentinel allocation))))
    ≡ (is_maybe allocation (err (record { errs = plain "x" ∷ [] }))
        || is_maybe allocation (some (sentinel allocation)))
is-err-append_example =
    is-err-append allocation (record { errs = plain "x" ∷ [] }) (some (sentinel allocation))

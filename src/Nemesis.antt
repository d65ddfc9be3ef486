-- ===== src/Nemesis.antt =====
-- nemesis/nemesis.go: the loop that injects faults, what it holds down, and the windows that its
-- events span. Times and durations are natural numbers; what the random source draws, when the
-- context ends and what a fault does are parameters of each round.
pub mod Holding
pub mod Picking
pub mod Windows
pub mod Pairing
pub mod Closing
use torx.Base.{
  ℕ, zero, suc, ◌+◌, ◌-◌, String, List, [], ◌∷◌, ◌++◌, Option, none, some, Bool, true, false, not,
  ◌&&◌, ◌||◌, any, select, length, set, get_elem?, if◌then◌else◌, ◌==◌, ltb, leb, str_eq,
}

pub data Failure : Type 0 where
  no_target : Failure
  other : String → Failure

pub record Event : Type 0 where
  pub fault : String
  pub heal : Bool
  pub target : String
  pub start : ℕ
  pub finish : ℕ
  pub held : Bool
  pub error : Option Failure

pub record Schedule : Type 0 where
  pub quiet_min : ℕ
  pub quiet_max : ℕ
  pub hold_min : ℕ
  pub hold_max : ℕ
  pub long_hold : ℕ
  pub long_every : ℕ

-- A fault is its name and weight here; a weight below 0 counts as 0.
pub record Fault : Type 0 where
  pub name : String
  pub weight : ℕ

-- `total` in `Run`.
unfoldable pub total_weight : List Fault → ℕ
total_weight [] = 0
total_weight (f ∷ fs) = f.weight + total_weight fs

-- The loop of `pick`, from the draw `r`; `last` is what stands after the loop.
unfoldable pub pick_from : ℕ → List Fault → Fault → Fault
pick_from r [] last = last
pick_from r (f ∷ fs) last =
    let rest = pick_from (r - f.weight) fs last in if ltb r f.weight then f else rest

-- `between`: `draw n` is what Int64N(n) answers, a number below n.
unfoldable pub between : (ℕ → ℕ) → ℕ → ℕ → ℕ
between draw lo hi = if leb hi lo then lo else lo + draw (hi - lo)

-- How long the hold of a fault is drawn to be: `odds` is what IntN(LongEvery) answers.
unfoldable pub hold_time : (ℕ → ℕ) → ℕ → Schedule → ℕ
unfolding between
hold_time draw odds s =
    if ltb 0 s.long_every && ltb s.hold_max s.long_hold && odds == 0
    then between draw s.hold_max s.long_hold
    else between draw s.hold_min s.hold_max

-- `Sleep`: how long it waits, and whether the duration passed. `ended` is how long after the call
-- the context ends, if it does; where that is just when the timer fires, select takes either.
unfoldable pub sleep : Bool → Option ℕ → ℕ → ℕ × Bool
sleep timer_first none d = (d, true)
sleep timer_first (some t) d =
    if ltb t d || (t == d && not timer_first) then (t, false) else (d, true)

-- One round of `Run` as its environment decides it: whether the context ended in the rest, or in
-- Before; the fault drawn; what Inject returned, with the result of its heal if it gave one; and
-- when the injection and the heal began and ended.
pub record Round : Type 0 where
  pub ended_resting : Bool
  pub ended_before : Bool
  pub draw : ℕ
  pub target : String
  pub inject_error : Option Failure
  pub healing : Option (Option Failure)
  pub inject_start : ℕ
  pub inject_end : ℕ
  pub heal_start : ℕ
  pub heal_end : ℕ

abbrev pub is_some {ℓ} : {A : Type ℓ} → Option A → Bool
is_some none = false
is_some (some _) = true

pub injection : Fault → Round → Event
injection f r = record {
  fault = f.name;
  heal = false;
  target = r.target;
  start = r.inject_start;
  finish = r.inject_end;
  held = is_some r.healing;
  error = r.inject_error;
}

pub healed : Fault → Round → Option Failure → Event
healed f r result = record {
  fault = f.name;
  heal = true;
  target = r.target;
  start = r.heal_start;
  finish = r.heal_end;
  held = false;
  error = result;
}

-- What one fault records: its injection, and its heal if Inject returned one, whether or not the
-- context has ended in the hold.
pub round_events : Fault → Round → List Event
unfolding injection healed
round_events f r = elim r.healing [
  | none ↦ injection f r ∷ []
  | some result ↦ injection f r ∷ healed f r result ∷ []
]

-- The events that `Run` records over the rounds up to the end of its context.
unfoldable pub run_rounds : List Fault → Fault → List Round → List Event
unfolding pick_from round_events
run_rounds faults last [] = []
run_rounds faults last (r ∷ rs) =
    let rest = run_rounds faults last rs in
    if r.ended_resting
    then []
    else if r.ended_before
    then []
    else round_events (pick_from r.draw faults last) r ++ rest

-- With no weight at all `Run` only waits for its context.
unfoldable pub run : List Fault → Fault → List Round → List Event
unfolding run_rounds total_weight
run faults last rs = if total_weight faults == 0 then [] else run_rounds faults last rs

-- The counts of Holds: 0 is a target that the map lacks.
abbrev pub Holds : Type 0
Holds = String → ℕ

abbrev pub adjust : (ℕ → ℕ) → String → Holds → Holds
adjust f t h u = if str_eq t u then f (h u) else h u

unfoldable pub hold : List String → Holds → Holds
hold [] h = h
hold (t ∷ ts) h = hold ts (adjust suc t h)

-- What the function that `Hold` returns does the first time: a count that reaches 0 is deleted.
unfoldable pub release : List String → Holds → Holds
release [] h = h
release (t ∷ ts) h = release ts (adjust (λ n. n - 1) t h)

unfoldable pub held : Holds → String → Bool
held h t = ltb 0 (h t)

-- A window with no end was never healed.
pub record Window : Type 0 where
  pub fault : String
  pub target : String
  pub start : ℕ
  pub finish : Option ℕ
  pub heal_error : Option Failure

pub record Scan : Type 0 where
  pub out : List Window
  pub opened : String → String → List ℕ

abbrev pub enqueue :
    String → String → List ℕ → (String → String → List ℕ) → String → String → List ℕ
enqueue f t q opened f' t' = if str_eq f f' && str_eq t t' then q else opened f' t'

pub open_window : Event → Option ℕ → Window
open_window e end = record {
  fault = e.fault;
  target = e.target;
  start = e.start;
  finish = end;
  heal_error = none;
}

-- The end, or the failure, of a heal, put into the window that it closes.
pub close_at : List Window → ℕ → Event → List Window
close_at [] i e = []
close_at (w ∷ ws) zero e = elim e.error [
  | none ↦ record w { finish = some e.finish } ∷ ws
  | some x ↦ record w { heal_error = some x } ∷ ws
]
close_at (w ∷ ws) (suc i) e = w ∷ close_at ws i e

pub heal_step : Event → Scan → List ℕ → Scan
unfolding close_at
heal_step e s [] = s
heal_step e s (i ∷ q) = record {
  out = close_at s.out i e;
  opened = enqueue e.fault e.target q s.opened;
}

pub over_step : Event → Scan → Option Failure → Scan
unfolding open_window
over_step e s (some no_target) = s
over_step e s _ = record s { out = s.out ++ open_window e (some e.finish) ∷ [] }

pub scan_event : Scan → Event → Scan
unfolding heal_step over_step open_window
scan_event s e =
    if e.heal
    then heal_step e s (s.opened e.fault e.target)
    else if e.held
    then record {
      out = s.out ++ open_window e none ∷ [];
      opened = enqueue e.fault e.target (s.opened e.fault e.target ++ length s.out ∷ []) s.opened;
    }
    else over_step e s e.error

pub scan_events : Scan → List Event → Scan
unfolding scan_event
scan_events s [] = s
scan_events s (e ∷ es) = scan_events (scan_event s e) es

unfoldable pub windows : List Event → List Window
unfolding scan_events
windows es = (scan_events (record { out = []; opened = λ _ _. [] }) es).out

-- `Overlaps`
unfoldable pub overlaps : Window → ℕ → ℕ → ℕ → Bool
overlaps w from to after =
    if ltb to w.start
    then false
    else elim w.finish [ none ↦ true | some end ↦ not (ltb (end + after) from) ]

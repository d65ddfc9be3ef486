-- ===== src/Linearize/Search.antt =====
-- linearize/linearize.go: the loop of CheckWithin, one pass at a time.
use torx.Base.{
  ℕ, zero, suc, ◌+◌, ◌-◌, ◌%◌, List, [], ◌∷◌, ◌++◌, Option, none, some, Bool, true, false, not,
  ◌&&◌, any, length, set, get_elem?, replicate, if◌then◌else◌, ◌==◌, ltb,
}
use torx.Base.Int.{ℤ, pos, eqb_ℤ}
use torx.Linearize.{
  Op, Model, Outcome, ok, illegal, unknown, Failure, bad_op, limit_reached, context_ended, Result,
  Entry, link, lift, is_pending, group_of, group_size, bad_op?, find_after, after_table, Frame,
  Vars,
}

abbrev pub bools_eq : List Bool → List Bool → Bool
bools_eq [] [] = true
bools_eq (a ∷ as') (b ∷ bs) = (if a then b else not b) && bools_eq as' bs
bools_eq _ _ = false

pub data Next (S : Type 0) : Type 0 where
  going : Vars S → Next S
  done : Result S → Next S
  fault : Next S

module _ {S : Type 0} (eq : S → S → Bool) (hash : List Bool → ℕ) where
  -- Whether a configuration is in the cache.
  unfoldable pub known : List (List Bool × S) → List Bool → S → Bool
  known bucket ops s = any (λ c. eq c.1 s && bools_eq c.0 ops) bucket

  -- `cache.add`: `none` says that the configuration is not new.
  unfoldable pub add : List Bool → S → Vars S → Option (Vars S)
  unfolding known
  add ops s v =
      if known (v.seen (hash ops)) ops s
      then none
      else some (record v {
        seen = λ h. if h == hash ops then v.seen h ++ (ops, s) ∷ [] else v.seen h;
        size = suc v.size;
      })

-- `enter` and `leave`: the open group and how many of its operations remain.
module _ {S : Type 0} (size_of : ℤ → ℕ) where
  unfoldable pub enter : ℤ → Vars S → Vars S
  enter g v =
      if eqb_ℤ g (pos 0)
      then v
      else let left = (if eqb_ℤ v.open_group (pos 0) then size_of g else v.open_left) - 1 in
        let group : ℤ = if eqb_ℤ v.open_group (pos 0) then g else v.open_group in
        record v { open_group = if left == 0 then pos 0 else group; open_left = left }

  unfoldable pub leave : ℤ → Vars S → Vars S
  leave g v =
      if eqb_ℤ g (pos 0)
      then v
      else let left = (if eqb_ℤ v.open_group (pos 0) then 0 else v.open_left) + 1 in
        let group : ℤ = if eqb_ℤ v.open_group (pos 0) then g else v.open_group in
        record v { open_group = if left == size_of g then pos 0 else group; open_left = left }

abbrev pub has : List Bool → ℕ → Bool
has bits i = elim (get_elem? bits i) [ none ↦ false | some b ↦ b ]

module _ {S I O : Type 0} (m : Model S I O) (eq : S → S → Bool) (hash : List Bool → ℕ)
    (cancelled : ℕ → Bool) (limit : ℕ) (ops : List (Op I O)) where
  abbrev sizes : ℤ → ℕ
  sizes g = group_size g ops

  abbrev pub skip : List Entry → Vars S → Vars S
  skip rest v = record v { here = rest }

  -- A group has begun, and the operation is not of it.
  abbrev pub outside_group : Op I O → Vars S → Bool
  outside_group o v = not (eqb_ℤ v.open_group (pos 0)) && not (eqb_ℤ (group_of o) v.open_group)

  -- The same operation, called before, is not placed yet.
  pub must_wait : ℕ → Vars S → Bool
  unfolding find_after after_table
  must_wait i v = elim (find_after i (after_table m.same ops)) [
    | none ↦ false
    | some j ↦ not (has v.linearized j)
  ]

  -- `lift` the call and go on from the head of the list.
  unfoldable pub place : ℕ → Op I O → S → List Entry → Vars S → Vars S
  unfolding lift enter
  place i o next rest v =
      let w = enter sizes (group_of o) v in
      let left = lift i v.entries in
      record w {
        stack = record { call = i; state = v.state; entries = v.entries; next = rest } ∷ v.stack;
        state = next;
        linearized = set v.linearized i true;
        entries = left;
        here = left;
      }

  -- The answer of the model to a call at the head of the search.
  unfoldable pub try_call : ℕ → Op I O → Bool × S → List Entry → Vars S → Next S
  unfolding place add
  try_call i o (legal, next) rest v =
      if legal && is_pending o && eq next v.state
      then going (skip rest v)
      else if legal
      then elim (add eq hash (set v.linearized i true) next v) [
        | none ↦ going (skip rest v)
        | some w ↦ going (place i o next rest w)
      ]
      else going (skip rest v)

  unfoldable pub at_call : ℕ → Op I O → List Entry → Vars S → Next S
  unfolding try_call must_wait
  at_call i o rest v =
      if outside_group o v
      then going (skip rest v)
      else if must_wait i v
      then going (skip rest v)
      else try_call i o (m.step v.state o.input o.output) rest v

  abbrev pub deeper : ℕ → Option ℕ → Bool
  deeper n none = true
  deeper n (some d) = ltb d n

  abbrev pub calls_of : List (Frame S) → List ℕ
  calls_of [] = []
  calls_of (f ∷ fs) = calls_of fs ++ f.call ∷ []

  -- How far this branch got, if further than any before.
  unfoldable pub remember : ℕ → Vars S → Vars S
  remember i v =
      if deeper (length v.stack) v.best_depth
      then record v {
        best_depth = some (length v.stack);
        best = record v.best { longest = calls_of v.stack; state = some v.state; stuck = some i };
      }
      else v

  abbrev pub group_at : ℕ → ℤ
  group_at i = elim (get_elem? ops i) [ none ↦ pos 0 | some o ↦ group_of o ]

  -- Back up: the last call placed is taken back, and the search goes on after it.
  unfoldable pub backtrack : List (Frame S) → Vars S → Next S
  unfolding leave
  backtrack [] v = done (record v.best { explored = v.size })
  backtrack (f ∷ fs) v =
      let w = leave sizes (group_at f.call) v in
      going (record w {
        stack = fs;
        state = f.state;
        linearized = set v.linearized f.call false;
        entries = f.entries;
        here = f.next;
      })

  abbrev pub verdict : Outcome → Option Failure → Vars S → Result S
  verdict o e v = record {
    outcome = o;
    longest = [];
    state = none;
    stuck = none;
    explored = v.size;
    error = e;
  }

  unfoldable pub at_return : ℕ → Op I O → Vars S → Next S
  unfolding remember backtrack
  at_return i o v =
      if is_pending o then done (verdict ok none v) else let w = remember i v in backtrack w.stack w

  unfoldable pub at_entry : List Entry → Vars S → Next S
  unfolding at_call at_return
  at_entry [] v = fault
  at_entry (en ∷ rest) v = elim (get_elem? ops en.op) [
    | none ↦ fault
    | some o ↦ if en.call then at_call en.op o rest v else at_return en.op o v
  ]

  abbrev pub is_nil : List Entry → Bool
  is_nil [] = true
  is_nil (_ ∷ _) = false

  -- One pass of the loop: the list may be used up, the context ended or a limit reached.
  unfoldable pub pass : Vars S → Next S
  unfolding at_entry
  pass v =
      let w = record v { steps = suc v.steps } in
      if is_nil v.entries
      then done (verdict ok none v)
      else if w.steps % 4096 == 0 && cancelled w.steps
      then done (verdict unknown (some context_ended) v)
      else if ltb 0 limit && ltb limit v.size
      then done (verdict unknown (some limit_reached) v)
      else at_entry v.here w

  unfoldable pub search : ℕ → Vars S → Option (Result S)
  unfolding pass
  search zero v = none
  search (suc fuel) v = elim (pass v) [ going w ↦ search fuel w | done r ↦ some r | fault ↦ none ]

  -- The variables before the loop; the first configuration is in the cache.
  unfoldable pub begin : Vars S
  unfolding link
  begin = record {
    stack = [];
    state = m.init;
    linearized = replicate (length ops) false;
    seen = λ h.
        if h == hash (replicate (length ops) false)
        then (replicate (length ops) false, m.init) ∷ []
        else [];
    size = 1;
    best = record {
      outcome = illegal;
      longest = [];
      state = some m.init;
      stuck = none;
      explored = 0;
      error = none;
    };
    best_depth = none;
    steps = 0;
    open_group = pos 0;
    open_left = 0;
    entries = link ops;
    here = link ops;
  }

  -- CheckWithin, with fuel for its loop.
  unfoldable pub check_within : ℕ → Option (Result S)
  unfolding search begin bad_op?
  check_within fuel = elim (bad_op? 0 ops) [
    | some i ↦ some (record (verdict unknown (some bad_op) begin) { stuck = some i; explored = 0 })
    | none ↦ search fuel begin
  ]

-- ===== src/Linearize.antt =====
-- linearize/linearize.go: the search for a linearization. A list of the entries left stands for
-- the linked list, and a frame keeps the list that unlift brings back. The equality of states and
-- the hash of a bitset are parameters, as is whether the context has ended at a step. The loop
-- takes fuel: `none` says that it ran out.
pub mod Search
pub mod History
pub mod Sound
pub mod Verdict
pub mod Ends
use torx.Base.{
  ℕ, zero, suc, ◌+◌, ◌^◌, ◌-◌, List, [], ◌∷◌, ◌++◌, map, Option, none, some, Bool, true, false, not,
  ◌&&◌, ◌||◌, any, select, length, set, get_elem?, replicate, if◌then◌else◌, ◌==◌, ltb,
}
use torx.Base.Int.{ℤ, pos, ltb_ℤ, eqb_ℤ}
use torx.Base.Sort.{sort_stable}

abbrev pub pending : ℤ
pending = pos (2 ^ 63 - 1)

pub record Op (I O : Type 0) : Type 0 where
  pub client : ℤ
  pub call : ℤ
  pub return : ℤ
  pub group : ℤ
  pub input : I
  pub output : O

pub record Model (S I O : Type 0) : Type 0 where
  pub init : S
  pub step : S → I → O → Bool × S
  pub same : Option (I → O → I → O → Bool)

pub data Outcome : Type 0 where
  ok illegal unknown : Outcome

pub data Failure : Type 0 where
  bad_op limit_reached context_ended : Failure

-- `state` is `none` where the code leaves the zero value of the state.
pub record Result (S : Type 0) : Type 0 where
  pub outcome : Outcome
  pub longest : List ℕ
  pub state : Option S
  pub stuck : Option ℕ
  pub explored : ℕ
  pub error : Option Failure

-- An event as `link` sorts it, and the entry that it becomes.
pub record Entry : Type 0 where
  pub time : ℤ
  pub call : Bool
  pub op : ℕ

-- The comparison of `link`: by time, and a call before a return at the same time.
unfoldable pub entry_less : Entry → Entry → Bool
entry_less a b = if not (eqb_ℤ a.time b.time) then ltb_ℤ a.time b.time else a.call && not b.call

-- `lift`: a call and its return are taken out.
unfoldable pub lift : ℕ → List Entry → List Entry
lift i = select (λ en. not (en.op == i))

unfoldable pub find_after : ℕ → List (ℕ × Option ℕ) → Option ℕ
find_after i [] = none
find_after i ((k, a) ∷ rest) = if k == i then a else find_after i rest

module _ {I O : Type 0} where
  unfoldable pub events : ℕ → List (Op I O) → List Entry
  events i [] = []
  events i (o ∷ ops) =
      record { time = o.call; call = true; op = i }
      ∷ record { time = o.return; call = false; op = i }
      ∷ events (suc i) ops

  unfoldable pub link : List (Op I O) → List Entry
  unfolding events sort_stable entry_less
  link ops = sort_stable entry_less (events 0 ops)

  abbrev pub is_pending : Op I O → Bool
  is_pending o = eqb_ℤ o.return pending

  -- The group that an operation counts in.
  unfoldable pub group_of : Op I O → ℤ
  group_of o = if is_pending o then pos 0 else o.group

  unfoldable pub group_size : ℤ → List (Op I O) → ℕ
  unfolding group_of
  group_size g [] = 0
  group_size g (o ∷ ops) =
      (if not (eqb_ℤ (group_of o) (pos 0)) && eqb_ℤ (group_of o) g then 1 else 0) + group_size g ops

  -- `err` is ErrBadOp.
  unfoldable pub bad_op? : ℕ → List (Op I O) → Option ℕ
  bad_op? i [] = none
  bad_op? i (o ∷ ops) = if ltb_ℤ o.return o.call then some i else bad_op? (suc i) ops

  -- The operations that never returned, with their indices.
  pub pending_ops : ℕ → List (Op I O) → List (ℕ × Op I O)
  pending_ops i [] = []
  pending_ops i (o ∷ ops) =
      if is_pending o then (i, o) ∷ pending_ops (suc i) ops else pending_ops (suc i) ops

  -- Backwards from `i`: the last one called before it that is the same.
  pub last_same : (I → O → I → O → Bool) → Op I O → List (ℕ × Op I O) → Option ℕ
  last_same same o [] = none
  last_same same o ((j, p) ∷ earlier) =
      if same p.input p.output o.input o.output then some j else last_same same o earlier

  -- `earlier` holds the ones before, latest first.
  pub afters : (I → O → I → O → Bool) → List (ℕ × Op I O) → List (ℕ × Op I O) → List (ℕ × Option ℕ)
  unfolding last_same
  afters same earlier [] = []
  afters same earlier ((i, o) ∷ rest) =
      (i, last_same same o earlier) ∷ afters same ((i, o) ∷ earlier) rest

  unfoldable pub after_table : Option (I → O → I → O → Bool) → List (Op I O) → List (ℕ × Option ℕ)
  unfolding afters pending_ops sort_stable
  after_table none ops = []
  after_table (some same) ops =
      afters same [] (sort_stable (λ a b. ltb_ℤ a.1.call b.1.call) (pending_ops 0 ops))

-- A call that was placed: the state before it, the list before its lift, and what came after it.
pub record Frame (S : Type 0) : Type 0 where
  pub call : ℕ
  pub state : S
  pub entries : List Entry
  pub next : List Entry

pub record Vars (S : Type 0) : Type 0 where
  pub stack : List (Frame S)
  pub state : S
  pub linearized : List Bool
  pub seen : ℕ → List (List Bool × S)
  pub size : ℕ
  pub best : Result S
  pub best_depth : Option ℕ
  pub steps : ℕ
  pub open_group : ℤ
  pub open_left : ℕ
  pub entries : List Entry
  pub here : List Entry

-- ===== src/Driver.antt =====
-- driver.go: Run, which schedules requests over a pool, and runOne, which each running job is. The
-- goroutines are events: the driver goes on by one call, a job ends and gives its nodes back, or
-- the driver receives a result that waits on the channel. The results directory, the reporters and
-- the event sinks are left out; what a launcher answers, what Declare asks for, and whether the
-- context has ended when it is read are parameters.
pub mod Stopping
pub mod Counts
pub mod Handles
pub mod Nodes
pub mod Quarantine
pub mod Progress
pub mod Granted
use torx.Base.{
  ℕ, suc, ◌+◌, ◌-◌, String, List, [], ◌∷◌, ◌++◌, map, Option, none, some, Bool, true, false, not,
  ◌&&◌, ◌||◌, length, get_elem?, remove, if◌then◌else◌, ◌==◌, ltb,
}
use torx.Base.Sort.{sort_stable}
use torx.Node.{Node}
use torx.Spec.{PoolSpec, size}
use torx.Pool.{Pool, Allocated, ok, err, allocate, can_allocate, can_ever_fit, new_pool}
use torx.Pool.Sessions as Sessions
use torx.Pool.Sessions.{System}
use torx.Params.{Json, Params}
use torx.Discovery.{JobRequest, variant_id}
use torx.Suite.{JobResult, SuiteResult, fail, same_status}

pub record Plan : Type 0 where
  pub req : JobRequest
  pub spec : PoolSpec

-- A job that runs, with the number of its sub-pool among those handed out.
pub record Running : Type 0 where
  pub req : JobRequest
  pub handle : ℕ

-- Where the driver is: at the head of the outer or of the inner loop, at the plan that it asks
-- CanAllocate about or allocates for, at the receive, or behind the loops.
pub data Place : Type 0 where
  outer top waiting over : Place
  scanning allocating : ℕ → Place

-- A result that waits or is recorded stands with its request, for the statements only.
pub record State : Type 0 where
  pub sys : System
  pub pending : List Plan
  pub running : List Running
  pub finished : List (JobRequest × JobResult)
  pub recorded : List (JobRequest × JobResult)
  pub active : ℕ
  pub stop : Bool
  pub place : Place

-- The driver goes on, with whether the context has ended; the job at a place among the running
-- ones ends, with what Launch returned, if it did not fail; a result is received.
pub data Event : Type 0 where
  drive : Bool → Event
  finish : ℕ → Option JobResult → Event
  receive : ℕ → Bool → Event

module _ (encode : Json → String) (lookup : String → Option (JobRequest → Option PoolSpec)) where
  unfoldable pub fail_result : JobRequest → JobResult
  unfolding variant_id
  fail_result r = record {
    id = variant_id encode r.id r.params;
    params = r.params;
    status = fail;
    summary = "";
    dirty = false;
    persist_err = "";
  }

  -- sizeJob: an unknown job and a Declare that panics are failures.
  unfoldable pub size_job : JobRequest → Option PoolSpec
  size_job r = elim (lookup r.id) [ none ↦ none | some declare ↦ declare r ]

  -- The loop over the requests: those that fail at once, and the plans.
  pub admit : Pool → List JobRequest → List (JobRequest × JobResult) × List Plan
  unfolding fail_result size_job can_ever_fit
  admit pool [] = ([], [])
  admit pool (r ∷ rs) =
      let (recorded, pending) = admit pool rs in
      if r.failed then ((r, fail_result r) ∷ recorded, pending) else elim (size_job r) [
        | none ↦ ((r, fail_result r) ∷ recorded, pending)
        | some spec ↦
            if not (can_ever_fit pool spec)
            then ((r, fail_result r) ∷ recorded, pending)
            else (recorded, record { req = r; spec = spec } ∷ pending)
      ]

  -- The state before the loops, over a pool of these nodes.
  unfoldable pub begin : List Node → List JobRequest → State
  unfolding admit sort_stable new_pool
  begin nodes requests =
      let (recorded, pending) = admit (new_pool nodes) requests in
      record {
        sys = Sessions.start nodes;
        pending = sort_stable (λ a b. ltb (size b.spec) (size a.spec)) pending;
        running = [];
        finished = [];
        recorded = recorded;
        active = 0;
        stop = false;
        place = outer;
      }

  -- `break` of the inner loop.
  abbrev pub leave : State → State
  leave s = record s { place = if s.active == 0 then over else waiting }

  -- `pool.Allocate` for a plan that has been taken out of the pending ones.
  unfoldable pub launch : Plan → State → Allocated → State
  unfolding fail_result Sessions.step
  launch p s (ok sub) = record s {
    sys = Sessions.step s.sys (Sessions.allocates p.spec);
    running = s.running ++ record { req = p.req; handle = length s.sys.subs } ∷ [];
    active = suc s.active;
    place = top;
  }
  launch p s (err e) = record s {
    sys = Sessions.step s.sys (Sessions.allocates p.spec);
    recorded = s.recorded ++ (p.req, fail_result p.req) ∷ [];
    place = top;
  }

  unfoldable pub go_on : ℕ → Bool → State → Place → State
  unfolding launch can_allocate allocate
  go_on max ended s outer = record s {
    place = if length s.pending == 0 && s.active == 0 then over else top;
  }
  go_on max ended s top =
      if not s.stop && not ended && ltb s.active max
      then record s { place = scanning 0 }
      else leave s
  go_on max ended s (scanning k) = elim (get_elem? s.pending k) [
    | none ↦ leave s
    | some p ↦ record s {
      place = if can_allocate s.sys.pool p.spec then allocating k else scanning (suc k);
    }
  ]
  go_on max ended s (allocating k) = elim (get_elem? s.pending k) [
    | none ↦ s
    | some p ↦ launch p (record s { pending = remove k s.pending }) (allocate s.sys.pool p.spec).1
  ]
  go_on max ended s waiting = s
  go_on max ended s over = s

  -- runOne from its Launch on, up to the send on the channel.
  unfoldable pub end_job : ℕ → Running → JobResult → State → State
  unfolding Sessions.step
  end_job i r res s = record s {
    sys =
        Sessions.step s.sys
          (if res.dirty then Sessions.evicts r.handle else Sessions.frees r.handle);
    running = remove i s.running;
    finished = s.finished ++ (r.req, res) ∷ [];
  }

  abbrev pub launched : JobRequest → Option JobResult → JobResult
  launched r none = fail_result r
  launched r (some res) = res

  unfoldable pub take_result : Bool → Bool → ℕ → JobRequest × JobResult → State → State
  take_result exit_first ended i (r, res) s = record s {
    finished = remove i s.finished;
    recorded = s.recorded ++ (r, res) ∷ [];
    active = s.active - 1;
    stop = if (exit_first && same_status res.status fail) || ended then true else s.stop;
    place = outer;
  }

  abbrev pub at_receive : Place → Bool
  at_receive waiting = true
  at_receive _ = false

  -- One event; an event that cannot be does nothing.
  unfoldable pub step : ℕ → Bool → State → Event → State
  unfolding go_on end_job take_result
  step max exit_first s (drive ended) = go_on max ended s s.place
  step max exit_first s (finish i answer) = elim (get_elem? s.running i) [
    | none ↦ s
    | some r ↦ end_job i r (launched r.req answer) s
  ]
  step max exit_first s (receive i ended) = elim (get_elem? s.finished i) [
    | none ↦ s
    | some f ↦ if at_receive s.place then take_result exit_first ended i f s else s
  ]

  unfoldable pub run : ℕ → Bool → State → List Event → State
  unfolding step
  run max exit_first s [] = s
  run max exit_first s (e ∷ es) = run max exit_first (step max exit_first s e) es

  -- A run from its beginning.
  abbrev pub after : ℕ → Bool → List Node → List JobRequest → List Event → State
  after max exit_first nodes requests es = run max exit_first (begin nodes requests) es

  -- MaxParallel, at least 1.
  abbrev pub at_once : ℕ → ℕ
  at_once max_parallel = if ltb max_parallel 1 then 1 else max_parallel

  -- What is recorded behind the loops.
  unfoldable pub concluded : State → List (JobRequest × JobResult)
  unfolding fail_result
  concluded s =
      if s.stop then s.recorded else s.recorded ++ map (λ p. (p.req, fail_result p.req)) s.pending

  unfoldable pub suite : Bool → String → State → SuiteResult
  unfolding concluded
  suite ended persist_err s = record {
    jobs = map (λ f. f.1) (concluded s);
    cancelled = ended;
    persist_err = persist_err;
  }

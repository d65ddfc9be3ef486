-- ===== src/Tests/Runs.antt =====
-- Runs of the driver on small inputs: two jobs that want one machine each of two, one of which
-- leaves its machine dirty.
use torx.Base.{
  any, ℕ, ◌+◌, ◌≤◌, ◌<◌, ◌≡◌, ◌⊎◌, refl, String, List, [], ◌∷◌, ◌++◌, Option, none, some, Bool,
  true, false, length, get_elem?, str_eq, if◌then◌else◌, arith,
}
use torx.Base.Int.{pos}
use torx.Base.Sort.{count_if}
use torx.Node.{Node}
use torx.Spec.{NodeSpec, PoolSpec, size}
use torx.Pool.{Pool, SubPool, ok, allocate, free, evict}
use torx.Pool.Match.{match_run, match_specs}
use torx.Pool.Count.{cnt, holding}
use torx.Params.{Json}
use torx.Discovery.{JobRequest}
use torx.Suite.{JobResult, pass}
use torx.Driver.{
  Plan, Event, drive, finish, receive, over, allocating, begin, step, run, after, concluded,
  at_once,
}
use torx.Driver.Counts.{run_parallel, run_records}
use torx.Driver.Stopping.{may_stop}
use torx.Driver.Nodes.{nodes_of, run_exclusive}
use torx.Driver.Quarantine.{run_quarantines}
use torx.Driver.Progress.{work, plans, run_ends}
use torx.Driver.Granted.{run_grants}

abbrev encoded : Json → String
encoded _ = ""

abbrev wanted : NodeSpec
wanted = record {
  os = "linux";
  required = record { cpus = none; memory_mb = none; labels = [] };
  preferred = [];
  role = "";
}

abbrev one_machine : PoolSpec
one_machine = record { nodes = wanted ∷ [] }

abbrev jobs_known : String → Option (JobRequest → Option PoolSpec)
jobs_known id = if str_eq id "unknown" then none else some (λ _. some one_machine)

abbrev machine : ℕ → Node
machine i = record {
  id = i;
  name = "n";
  role = "";
  addr = "";
  host = "";
  resources = record { cpus = none; memory_mb = some (pos 4); labels = [] };
}

abbrev machines : List Node
machines = machine 0 ∷ machine 1 ∷ []

machines-apart : (k : ℕ) → cnt k machines ≤ 1
machines-apart k = ground arith

abbrev request : String → JobRequest
request id = record { id = id; params = []; failed = false }

abbrev requests : List JobRequest
requests = request "a" ∷ request "b" ∷ request "unknown" ∷ []

-- The driver launches both jobs.
abbrev both_launched : List Event
both_launched =
    drive false
    ∷ drive false
    ∷ drive false
    ∷ drive false
    ∷ drive false
    ∷ drive false
    ∷ drive false
    ∷ []

abbrev dirty_result : JobResult
dirty_result = record {
  id = "a";
  params = [];
  status = pass;
  summary = "";
  dirty = true;
  persist_err = "";
}

-- Both end, the first with a dirty result, and their results are received.
abbrev to_the_end : List Event
to_the_end =
    both_launched
    ++ drive false
      ∷ drive false
      ∷ finish 0 (some dirty_result)
      ∷ finish 0 none
      ∷ receive 1 false
      ∷ drive false
      ∷ drive false
      ∷ drive false
      ∷ receive 0 false
      ∷ drive false
      ∷ []

first_runs :
    get_elem? (after encoded jobs_known 2 false machines requests both_launched).running 0
    ≡ some (record { req = request "a"; handle = 0 })
unfolding run begin match_specs match_run size
first_runs = refl

first_has :
    holding
      (nodes_of machines encoded jobs_known
        (after encoded jobs_known 2 false machines requests both_launched)
        (record { req = request "a"; handle = 0 }))
      0
    ≡ true
unfolding run begin match_specs match_run size
first_has = refl

run_exclusive_example :
    let s = after encoded jobs_known 2 false machines requests both_launched in
    (holding s.sys.pool.free_nodes 0 ≡ false)
    × (holding s.sys.gone 0 ≡ false)
    × (count_if (λ q. holding (nodes_of machines encoded jobs_known s q) 0) s.running ≡ 1)
run_exclusive_example =
    run_exclusive machines encoded jobs_known machines-apart 2 false requests both_launched 0 0
      (record { req = request "a"; handle = 0 }) first_runs first_has

run_quarantines_example :
    let s =
      after encoded jobs_known 2 false machines requests
        (both_launched ++ finish 0 (some dirty_result) ∷ []) in
    (holding s.sys.pool.free_nodes 0 ≡ false)
    × (count_if (λ q. holding (nodes_of machines encoded jobs_known s q) 0) s.running ≡ 0)
run_quarantines_example =
    run_quarantines encoded jobs_known machines machines-apart 2 false requests both_launched [] 0 0
      (record { req = request "a"; handle = 0 }) (some dirty_result) first_runs refl first_has

run_parallel_example :
    let s =
      after encoded jobs_known (at_once encoded jobs_known 2) false machines requests to_the_end in
    (length s.running ≤ 2 ⊎ (length s.running ≤ 1))
    × (s.active ≡ length s.running + length s.finished)
run_parallel_example = run_parallel encoded jobs_known 2 false machines requests to_the_end

at_the_end : (after encoded jobs_known 2 false machines requests to_the_end).place ≡ over
unfolding run begin match_specs match_run size evict free
at_the_end = refl

abbrev of_a : JobRequest → Bool
of_a r = str_eq r.id "a"

run_records_example :
    let s = after encoded jobs_known 2 false machines requests to_the_end in
    (count_if (λ f. of_a f.0) (concluded encoded jobs_known s)
        + (if s.stop then count_if (λ x. of_a x.req) s.pending else 0)
      ≡ count_if of_a requests)
    × ((s.stop ≡ false) ⊎ (any (may_stop false) to_the_end ≡ true))
run_records_example =
    run_records encoded jobs_known of_a 2 false machines requests to_the_end at_the_end

-- A context that has ended before anything is launched: nothing sets `stop`, and every request is
-- recorded.
cancelled_at_once :
    let s = after encoded jobs_known 2 false machines requests (drive true ∷ drive true ∷ []) in
    (s.place ≡ over) × (s.stop ≡ false) × (length (concluded encoded jobs_known s) ≡ 3)
unfolding run begin concluded match_specs match_run size
cancelled_at_once = (refl, refl, refl)

run_ends_example :
    let s = after encoded jobs_known 2 false machines requests both_launched in
    ((e : Event)
      → (step encoded jobs_known 2 false s e ≡ s)
        ⊎ (work (plans encoded jobs_known machines requests) (step encoded jobs_known 2 false s e)
            < work (plans encoded jobs_known machines requests) s))
    × ((fs : List Event) × ((run encoded jobs_known 2 false s fs).place ≡ over))
run_ends_example = run_ends encoded jobs_known 2 false machines requests both_launched

about_to :
    (after encoded jobs_known 2 false machines requests
      (drive false ∷ drive false ∷ drive false ∷ [])).place
    ≡ allocating 0
unfolding run begin match_specs match_run size
about_to = refl

run_grants_example :
    let s =
      after encoded jobs_known 2 false machines requests
        (drive false ∷ drive false ∷ drive false ∷ []) in
    (p : Plan) × (get_elem? s.pending 0 ≡ some p)
    × ((q : Pool) × (sub : SubPool) × (allocate s.sys.pool p.spec ≡ (q, ok sub)))
run_grants_example =
    run_grants encoded jobs_known 2 false machines requests
      (drive false ∷ drive false ∷ drive false ∷ []) 0 about_to

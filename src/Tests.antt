-- ===== src/Tests.antt =====
-- Runs of the pool on small inputs: two machines and the requests of two jobs on them.
mod Tools
mod Plans
mod Runs
mod Histories
use torx.Base.{
  ℕ, zero, suc, ◌+◌, ◌≤◌, ◌<◌, ◌≡◌, ◌≢◌, ◌⊎◌, ◌↔◌, inl, inr, refl, List, [], ◌∷◌, ◌++◌, Option,
  none, some, Bool, true, false, not, ◌||◌, length, get_elem?, All, arith, if◌then◌else◌, ◌==◌, ltb,
  String,
}
use torx.Base.Int.{ℤ, pos, ltb_ℤ, eqb_ℤ}
use torx.Base.Sort.{sort_stable, count_if}
use torx.Spec.{Resources, NodeSpec, PoolSpec, satisfied_by}
use torx.Node.{Node}
use torx.Errors.{Category, allocation, Error, wrap, is, MultiError, append, err}
use torx.Pool.{
  Pool, SubPool, Allocated, ok, allocate, evict, free, can_allocate, new_pool, available,
  nodes_in_use, pool_size, high_water,
}
use torx.Pool.Count.{cnt, holding}
use torx.Pool.Ops.{live}
use torx.Pool.Match.{fits, match_run, match_specs}
use torx.Pool.Match.Hall.{Assignment}
use torx.Pool.Match.Correct.{match_run-total, match_specs_sound, match_specs_complete}
use torx.Pool.Sessions.{System, Op, start, run, allocates, frees, evicts}
use torx.Pool.Guarantees.{
  holds_out, run-exclusive, run-accounts, run-evicted, allocate_all_or_nothing, Granted,
}

abbrev plain_resources : Resources
plain_resources = record { cpus = none; memory_mb = some (pos 4); labels = [] }

abbrev small : NodeSpec
small = record {
  os = "linux";
  required = record { cpus = none; memory_mb = none; labels = [] };
  preferred = [];
  role = "";
}

abbrev large : NodeSpec
large = record {
  os = "linux";
  required = record { cpus = none; memory_mb = some (pos 8); labels = [] };
  preferred = [];
  role = "";
}

abbrev machine : ℕ → ℕ → Node
machine i mb = record {
  id = i;
  name = "n";
  role = "";
  addr = "";
  host = "";
  resources = record { cpus = none; memory_mb = some (pos mb); labels = [] };
}

-- The small spec comes first and the large machine too: the search has to move it away.
abbrev machines : List Node
machines = machine 0 16 ∷ machine 1 4 ∷ []

abbrev wants : List NodeSpec
wants = small ∷ large ∷ []

-- The search moved the large machine to the spec that needs it.
matched : match_specs machines wants ≡ some (machine 1 4 ∷ machine 0 16 ∷ [])
unfolding match_specs match_run
matched = refl

match_run-total_example : (answer : Option (List Node)) × (match_run machines wants ≡ some answer)
match_run-total_example = match_run-total wants machines

abbrev crossed : ℕ → ℕ
crossed i = if i == 0 then 1 else 0

crossed-fits :
    (i : ℕ)
    → i < 2
    → (n : Node) × (get_elem? machines (crossed i) ≡ some n) × (fits wants i n ≡ true)
unfolding fits satisfied_by
crossed-fits zero h = (machine 1 4, refl, refl)
crossed-fits (suc zero) h = (machine 0 16, refl, refl)
crossed-fits (suc (suc i)) h = absurd (omega arith)

crossed-distinct : (i k : ℕ) → i < 2 → k < 2 → crossed i ≡ crossed k → i ≡ k
crossed-distinct i k hi hk e = ground arith

abbrev pair : Assignment wants machines
pair = record { place = crossed; place_fits = crossed-fits; distinct = crossed-distinct }

match_specs_sound_example :
    (length wants ≡ length wants)
    × ((a : Assignment wants machines) × ((i : ℕ)
          → i < 2
          → get_elem? (machine 1 4 ∷ machine 0 16 ∷ []) i ≡ get_elem? machines (a.place i)))
match_specs_sound_example =
    match_specs_sound wants machines (machine 1 4 ∷ machine 0 16 ∷ []) matched

match_specs_complete_example : (nodes : List Node) × (match_specs machines wants ≡ some nodes)
match_specs_complete_example = match_specs_complete wants machines pair

abbrev one : PoolSpec
one = record { nodes = small ∷ [] }

abbrev two_jobs : List Op
two_jobs = allocates one ∷ allocates one ∷ []

abbrev sub_pool : Node → SubPool
sub_pool n = record { nodes = n ∷ []; freed = false }

machines-distinct : (k : ℕ) → cnt k machines ≤ 1
machines-distinct k = ground arith

first_sub : get_elem? (run (start machines) two_jobs).subs 0 ≡ some (sub_pool (machine 0 16))
unfolding run match_specs match_run allocate new_pool
first_sub = refl

run-exclusive_example :
    (holding (run (start machines) two_jobs).pool.free_nodes 0 ≡ false)
    × (holding (run (start machines) two_jobs).gone 0 ≡ false)
    × (count_if (holds_out 0) (run (start machines) two_jobs).subs ≡ 1)
run-exclusive_example =
    run-exclusive machines machines-distinct two_jobs 0 0 (sub_pool (machine 0 16)) first_sub refl
      refl

abbrev end : System
end = run (start machines) (allocates one ∷ evicts 0 ∷ frees 0 ∷ [])

run-accounts_example :
    (available end.pool + nodes_in_use end.pool + length end.gone ≡ pool_size end.pool)
    × (pool_size end.pool ≡ length machines)
    × ((k : ℕ) → holding end.pool.in_use k ≡ holding (live end.subs) k)
    × (nodes_in_use end.pool ≤ high_water end.pool)
    × (high_water end.pool ≤ pool_size end.pool)
run-accounts_example =
    run-accounts machines machines-distinct (allocates one ∷ evicts 0 ∷ frees 0 ∷ [])

was_evicted : holding end.gone 0 ≡ true
unfolding run match_specs match_run allocate evict free new_pool
was_evicted = refl

run-evicted_example : (holding end.pool.free_nodes 0 ≡ false) × (holding end.pool.in_use 0 ≡ false)
run-evicted_example =
    run-evicted machines machines-distinct (allocates one ∷ evicts 0 ∷ frees 0 ∷ []) 0 was_evicted

allocate_all_or_nothing_example :
    ((p' : Pool) × (sub : SubPool) × (allocate (new_pool machines) (record { nodes = wants })
        ≡ (p', ok sub))
      × Granted (new_pool machines) (record { nodes = wants }) sub
      × (can_allocate (new_pool machines) (record { nodes = wants }) ≡ true))
    ⊎ ((e : Error) × (allocate (new_pool machines) (record { nodes = wants })
          ≡ (new_pool machines, Allocated.err e))
        × (is allocation e ≡ true)
        × (¬ Assignment wants (new_pool machines).free_nodes)
        × (can_allocate (new_pool machines) (record { nodes = wants }) ≡ false))
allocate_all_or_nothing_example =
    allocate_all_or_nothing (new_pool machines) (record { nodes = wants })

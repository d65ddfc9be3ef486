-- ===== src/Pool.antt =====
-- pool.go: the nodes a session owns, and allocation. A node is its pointer, so nodes are compared
-- by `id`; the `inUse` map is the list of its keys. The mutex makes each operation one step.
pub mod Match
pub mod Count
pub mod Ops
pub mod Sessions
pub mod Invariant
pub mod Guarantees
use torx.Base.{
  ℕ, zero, suc, ◌+◌, List, [], ◌∷◌, ◌++◌, Option, none, some, Bool, true, false, not, length,
  select, any, get_elem?, set, if◌then◌else◌, ◌==◌, ltb,
}
use torx.Errors.{Error, wrap, allocation, plain}
use torx.Spec.{PoolSpec}
use torx.Node.{Node}
use Match.{match_specs}
use Count.{holding}

pub record Pool : Type 0 where
  pub free_nodes : List Node
  pub in_use : List Node
  pub total : ℕ
  pub max_used : ℕ

unfoldable pub new_pool : List Node → Pool
new_pool nodes = record { free_nodes = nodes; in_use = []; total = length nodes; max_used = 0 }

pub record SubPool : Type 0 where
  pub nodes : List Node
  pub freed : Bool

-- A write to the map, and `delete`.
pub claim : List Node → Node → List Node
claim used n = if holding used n.id then used else n ∷ used

unfoldable pub claim_all : List Node → List Node → List Node
unfolding claim
claim_all used [] = used
claim_all used (n ∷ ns) = claim_all (claim used n) ns

unfoldable pub unclaim_all : List Node → List Node → List Node
unclaim_all used [] = used
unclaim_all used (n ∷ ns) = unclaim_all (select (λ m. not (m.id == n.id)) used) ns

pub data Allocated : Type 0 where
  ok : SubPool → Allocated
  err : Error → Allocated

-- The pool once the assigned nodes are claimed.
abbrev pub claimed : Pool → List Node → Pool
claimed p assigned =
    let used = claim_all p.in_use assigned in
    record p {
      free_nodes = select (λ n. not (holding assigned n.id)) p.free_nodes;
      in_use = used;
      max_used = if ltb p.max_used (length used) then length used else p.max_used;
    }

abbrev pub cannot_satisfy : Error
cannot_satisfy = wrap allocation "pool: allocate" (some (plain "cannot satisfy the node specs"))

-- `Allocate`: all or nothing.
unfoldable pub allocate : Pool → PoolSpec → Pool × Allocated
allocate p spec = elim (match_specs p.free_nodes spec.nodes) [
  | none ↦ (p, err cannot_satisfy)
  | some assigned ↦ (claimed p assigned, ok (record { nodes = assigned; freed = false }))
]

abbrev pub is_some {ℓ} : {A : Type ℓ} → Option A → Bool
is_some none = false
is_some (some _) = true

unfoldable pub can_allocate : Pool → PoolSpec → Bool
can_allocate p spec = is_some (match_specs p.free_nodes spec.nodes)

unfoldable pub can_ever_fit : Pool → PoolSpec → Bool
can_ever_fit p spec = is_some (match_specs (p.free_nodes ++ p.in_use) spec.nodes)

-- `Free` and `Evict` return the pool and the sub-pool, which they mark; the second call for one
-- sub-pool does nothing.
unfoldable pub free : Pool → SubPool → Pool × SubPool
unfolding unclaim_all
free p sub = if sub.freed then (p, sub) else (
  record p { free_nodes = p.free_nodes ++ sub.nodes; in_use = unclaim_all p.in_use sub.nodes },
  record sub { freed = true },
)

unfoldable pub evict : Pool → SubPool → Pool × SubPool
unfolding unclaim_all
evict p sub =
    if sub.freed
    then (p, sub)
    else (record p { in_use = unclaim_all p.in_use sub.nodes }, record sub { freed = true })

unfoldable pub pool_size : Pool → ℕ
pool_size p = p.total

unfoldable pub available : Pool → ℕ
available p = length p.free_nodes

unfoldable pub nodes_in_use : Pool → ℕ
nodes_in_use p = length p.in_use

unfoldable pub high_water : Pool → ℕ
high_water p = p.max_used

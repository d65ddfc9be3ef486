-- ===== src/Pool/Sessions.antt =====
-- A pool under any sequence of Allocate, Free and Evict calls, with the sub-pools it has handed
-- out. `gone` is bookkeeping of the model: the nodes that Evict has taken out.
use torx.Base.{
  ℕ, ◌≡◌, List, [], ◌∷◌, ◌++◌, Option, none, some, true, false, get_elem?, set, if◌then◌else◌,
  arith,
}
use torx.Spec.{PoolSpec}
use torx.Node.{Node}
use torx.Pool.{Pool, SubPool, Allocated, ok, err, new_pool, allocate, free, evict, unclaim_all}

pub record System : Type 0 where
  pub pool : Pool
  pub subs : List SubPool
  pub gone : List Node

pub data Op : Type 0 where
  allocates : PoolSpec → Op
  frees : ℕ → Op
  evicts : ℕ → Op

abbrev pub start : List Node → System
start nodes = record { pool = new_pool nodes; subs = []; gone = [] }

after_allocate : System → Pool × Allocated → System
after_allocate s (p, ok sub) = record s { pool = p; subs = s.subs ++ sub ∷ [] }
after_allocate s (p, err e) = record s { pool = p }

-- A handle that names no sub-pool is a nil one.
after_free : System → ℕ → Option SubPool → System
after_free s i none = s
after_free s i (some sub) =
    let (p, sub') = free s.pool sub in record s { pool = p; subs = set s.subs i sub' }

after_evict : System → ℕ → Option SubPool → System
after_evict s i none = s
after_evict s i (some sub) =
    let (p, sub') = evict s.pool sub in
    record s {
      pool = p;
      subs = set s.subs i sub';
      gone = if sub.freed then s.gone else sub.nodes ++ s.gone;
    }

unfoldable pub step : System → Op → System
unfolding after_allocate after_free after_evict
step s (allocates spec) = after_allocate s (allocate s.pool spec)
step s (frees i) = after_free s i (get_elem? s.subs i)
step s (evicts i) = after_evict s i (get_elem? s.subs i)

pub free_done : (p : Pool) (sub : SubPool) → sub.freed ≡ true → free p sub ≡ (p, sub)
unfolding free
free_done p sub h = ground arith

pub evict_done : (p : Pool) (sub : SubPool) → sub.freed ≡ true → evict p sub ≡ (p, sub)
unfolding evict
evict_done p sub h = ground arith

pub free_out :
    (p : Pool) (sub : SubPool)
    → sub.freed ≡ false
    → free p sub ≡ (
      record p { free_nodes = p.free_nodes ++ sub.nodes; in_use = unclaim_all p.in_use sub.nodes },
      record sub { freed = true },
    )
unfolding free
free_out p sub h = ground arith

pub evict_out :
    (p : Pool) (sub : SubPool)
    → sub.freed ≡ false
    → evict p sub
      ≡ (record p { in_use = unclaim_all p.in_use sub.nodes }, record sub { freed = true })
unfolding evict
evict_out p sub h = ground arith

unfoldable pub run : System → List Op → System
unfolding step
run s [] = s
run s (o ∷ os) = run (step s o) os

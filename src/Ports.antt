-- ===== src/Ports.antt =====
-- coordination.go: PortAllocator. Ports are natural numbers, `leased` is the list of its keys, and
-- what probeFreePort answers on its i-th call is a parameter: the operating system chooses it.
pub mod Leases
use torx.Base.{
  ℕ, zero, suc, ◌+◌, ◌-◌, String, List, [], ◌∷◌, Option, none, some, Bool, true, false, not, any,
  select, if◌then◌else◌, ◌==◌, ltb, str_eq,
}
use torx.Errors.{Error, wrap, allocation, plain}

abbrev pub max_port_attempts : ℕ
max_port_attempts = 100

abbrev pub default_port_host : String
default_port_host = "127.0.0.1"

pub record PortAllocator : Type 0 where
  pub host : String
  pub range_min : ℕ
  pub range_max : ℕ
  pub leased : List ℕ

unfoldable pub new_port_allocator : String → PortAllocator
new_port_allocator host = record { host = host; range_min = 0; range_max = 0; leased = [] }

unfoldable pub new_range_port_allocator : ℕ → ℕ → PortAllocator
new_range_port_allocator lo hi = record { host = ""; range_min = lo; range_max = hi; leased = [] }

unfoldable pub port_host : PortAllocator → String
port_host a = if str_eq a.host "" then default_port_host else a.host

abbrev pub taken : PortAllocator → ℕ → Bool
taken a port = any (λ p. p == port) a.leased

pub lease : PortAllocator → ℕ → PortAllocator
lease a port = if taken a port then a else record a { leased = port ∷ a.leased }

pub data Granted : Type 0 where
  port : ℕ → Granted
  failed : Error → Granted

abbrev pub no_port : String → Error
no_port why = wrap allocation "coordination: allocate port" (some (plain why))

-- The loop `for range maxPortAttempts`, with the attempts left and the number of the next probe.
unfoldable pub probe_loop : (ℕ → Option ℕ) → ℕ → ℕ → PortAllocator → PortAllocator × Granted
probe_loop probe zero i a = (a, failed (no_port "no free port"))
probe_loop probe (suc left) i a = elim (probe i) [
  | none ↦ (a, failed (no_port "probe"))
  | some p ↦
      let rest = probe_loop probe left (suc i) a in if taken a p then rest else (lease a p, port p)
]

unfoldable pub allocate_by_probe : (ℕ → Option ℕ) → PortAllocator → PortAllocator × Granted
unfolding probe_loop
allocate_by_probe probe a = probe_loop probe max_port_attempts 0 a

-- The loop `for p := rangeMin; p < rangeMax; p++`, with the ports left in the range.
unfoldable pub range_loop : ℕ → ℕ → PortAllocator → PortAllocator × Granted
range_loop zero p a = (a, failed (no_port "no free port in range"))
range_loop (suc left) p a =
    let rest = range_loop left (suc p) a in if not (taken a p) then (lease a p, port p) else rest

unfoldable pub allocate_from_range : PortAllocator → PortAllocator × Granted
unfolding range_loop
allocate_from_range a = range_loop (a.range_max - a.range_min) a.range_min a

unfoldable pub allocate_port : (ℕ → Option ℕ) → PortAllocator → PortAllocator × Granted
unfolding allocate_from_range allocate_by_probe
allocate_port probe a =
    if ltb a.range_min a.range_max then allocate_from_range a else allocate_by_probe probe a

unfoldable pub port_range : PortAllocator → Option (ℕ × ℕ)
port_range a = if ltb a.range_min a.range_max then some (a.range_min, a.range_max) else none

unfoldable pub release : PortAllocator → ℕ → PortAllocator
release a p = record a { leased = select (λ q. not (q == p)) a.leased }

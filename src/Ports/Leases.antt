-- ===== src/Ports/Leases.antt =====
-- coordination.go: what a port allocator hands out.
use native.Mathlib.Decide.{ℕ_discrete}
use torx.Base.{
  ℕ, zero, suc, ◌+◌, ◌-◌, ◌≤◌, ◌<◌, ◌≡◌, ◌⊎◌, inl, inr, refl, ap, ◌∙◌, List, [], ◌∷◌, Option, some,
  true, false, not, any, select, if◌then◌else◌, ◌==◌, ltb, arith, ltb→lt, Bool-cases, Option-cases,
}
use torx.Errors.{Error, is, wrap, allocation}
use torx.Ports.{
  PortAllocator, Granted, port, failed, taken, lease, probe_loop, range_loop, allocate_by_probe,
  allocate_from_range, allocate_port, release, no_port, max_port_attempts,
}

taken-lease :
    (a : PortAllocator) (p q : ℕ) → taken (lease a p) q ≡ (if p == q then true else taken a q)
unfolding lease
taken-lease a p q = ground arith

-- Of the allocator, only the leases change, and of them only that of one port, which is taken.
abbrev pub OnlyTakes : PortAllocator → ℕ → PortAllocator → Type 0
OnlyTakes a q a' =
    ((r : ℕ) → taken a' r ≡ (if q == r then true else taken a r))
    × (a'.host ≡ a.host)
    × (a'.range_min ≡ a.range_min)
    × (a'.range_max ≡ a.range_max)

lease-OnlyTakes : (a : PortAllocator) (q : ℕ) → OnlyTakes a q (lease a q)
unfolding lease
lease-OnlyTakes a q = (taken-lease a q, ground arith, ground arith, ground arith)

-- Allocating from a range of `left` ports from `p` on: the lowest free one, or none is free.
abbrev FromRange : ℕ → ℕ → PortAllocator → PortAllocator × Granted → Type 0
FromRange left p a r =
    ((q : ℕ) × (r ≡ (lease a q, port q))
      × (p ≤ q)
      × (q < p + left)
      × (taken a q ≡ false)
      × ((k : ℕ) → p ≤ k → k < q → taken a k ≡ true))
    ⊎ ((e : Error) × (r ≡ (a, failed e))
        × (is allocation e ≡ true)
        × ((k : ℕ) → p ≤ k → k < p + left → taken a k ≡ true))

from_head :
    (a : PortAllocator) (p q : ℕ)
    → taken a p ≡ true
    → ((k : ℕ) → suc p ≤ k → k < q → taken a k ≡ true)
    → (k : ℕ) → p ≤ k
    → k < q
    → taken a k ≡ true
from_head a p q used rest k h h' = elim (ℕ_discrete k p) [
  | yes same ↦ rw same used
  | no other ↦ rest k (omega arith) h'
]

range_loop_lem : (left p : ℕ) (a : PortAllocator) → FromRange left p a (range_loop left p a)
unfolding range_loop is wrap
range_loop_lem zero p a =
    inr (no_port "no free port in range", refl, refl, λ k h h'. absurd (omega arith))
range_loop_lem (suc left) p a = elim (Bool-cases (taken a p)) [
  | inl used ↦ rw used (elim (range_loop_lem left (suc p) a) [
    | inl (q, e, lo, hi, free, low) ↦
        inl (q, e, omega arith, omega arith, free, from_head a p q used low)
    | inr (x, e, c, all) ↦ inr (
      x,
      e,
      c,
      λ k h h'. from_head a p (p + suc left) used (λ m u v. all m u (omega arith)) k h h',
    )
  ])
  | inr free ↦
      rw free (inl (p, refl, omega arith, omega arith, free, λ k h h'. absurd (omega arith)))
]

-- Probing hands out the first probed port that is not leased, within the attempts; or it fails,
-- with an error of the allocation category, because a probe failed or they are used up.
abbrev FromProbe : (ℕ → Option ℕ) → ℕ → ℕ → PortAllocator → PortAllocator × Granted → Type 0
FromProbe probe left i a r =
    ((q : ℕ) × (j : ℕ) × (r ≡ (lease a q, port q))
      × (j < i + left)
      × (probe j ≡ some q)
      × (taken a q ≡ false))
    ⊎ ((e : Error) × (r ≡ (a, failed e)) × (is allocation e ≡ true))

probe_loop_lem :
    (probe : ℕ → Option ℕ) (left i : ℕ) (a : PortAllocator)
    → FromProbe probe left i a (probe_loop probe left i a)
unfolding probe_loop is wrap
probe_loop_lem probe zero i a = inr (no_port "no free port", refl, refl)
probe_loop_lem probe (suc left) i a = elim (Option-cases (probe i)) [
  | inl broken ↦ inr (no_port "probe", rw (broken, probe_loop), refl)
  | inr (p, here) ↦ elim (Bool-cases (taken a p)) [
    | inl used ↦
        rw (here, used, probe_loop)
          (elim (probe_loop_lem probe left (suc i) a) [
            | inl (q, j, e, lt, at, free) ↦ inl (q, j, e, omega arith, at, free)
            | inr fault ↦ inr fault
          ])
    | inr free ↦ inl (p, i, rw (here, free, probe_loop), omega arith, here, free)
  ]
]

-- Allocate hands out a port that was not leased, and afterwards that port is taken, every other
-- one is as it was, and the host and the range are the same; or it fails with an allocation error
-- and the allocator is as it was. In range mode the port is the lowest free one of the range, and
-- it fails only if every port of the range is leased; otherwise the port is one that a probe
-- answered, within the attempts.
pub allocate_port_lem :
    (probe : ℕ → Option ℕ) (a : PortAllocator)
    → ((q : ℕ) × (b : PortAllocator) × (allocate_port probe a ≡ (b, port q))
        × OnlyTakes a q b
        × (taken a q ≡ false)
        × (a.range_min < a.range_max
            → (a.range_min ≤ q)
              × (q < a.range_max)
              × ((k : ℕ) → a.range_min ≤ k → k < q → taken a k ≡ true))
        × (a.range_max ≤ a.range_min → (j : ℕ) × (j < max_port_attempts) × (probe j ≡ some q)))
      ⊎ ((e : Error) × (allocate_port probe a ≡ (a, failed e))
          × (is allocation e ≡ true)
          × (a.range_min < a.range_max
              → (k : ℕ) → a.range_min ≤ k
              → k < a.range_max
              → taken a k ≡ true))
unfolding allocate_port allocate_from_range allocate_by_probe
allocate_port_lem probe a = elim (Bool-cases (ltb a.range_min a.range_max)) [
  | inl ranged ↦
      rw (ranged, allocate_port)
        (elim (range_loop_lem (a.range_max - a.range_min) a.range_min a) [
          | inl (q, e, lo, hi, free, low) ↦ inl (
            q,
            lease a q,
            e,
            lease-OnlyTakes a q,
            free,
            (λ lt. (lo, omega (arith, ltb→lt _ _ ranged), low)),
            λ le. absurd (omega (arith, ltb→lt _ _ ranged)),
          )
          | inr (x, e, c, all) ↦ inr (x, e, c, λ lt k h h'. all k h (omega arith))
        ])
  | inr probed ↦
      rw (probed, allocate_port)
        (elim (probe_loop_lem probe max_port_attempts 0 a) [
          | inl (q, j, e, lt, at, free) ↦ inl (
            q,
            lease a q,
            e,
            lease-OnlyTakes a q,
            free,
            (λ lt'. absurd (ground arith)),
            λ le. (j, omega arith, at),
          )
          | inr (x, e, c) ↦ inr (x, e, c, λ lt'. absurd (ground arith))
        ])
]

taken-select :
    (q r : ℕ) (l : List ℕ)
    → any (λ x. x == r) (select (λ x. not (x == q)) l)
      ≡ (if r == q then false else any (λ x. x == r) l)
taken-select q r [] = ground arith
taken-select q r (x ∷ l) = ground (arith, taken-select q r l)

-- After a lease a port is taken if it was, or is the one leased; after a release of another port
-- its state is the same, and the released port is free again.
pub taken-release-lease :
    (a : PortAllocator) (p q r : ℕ)
    → taken (release (lease a p) q) r
      ≡ (if r == q then false else if p == r then true else taken a r)
unfolding release
taken-release-lease a p q r =
    taken-select q r (lease a p).leased ∙ ap (λ b. if r == q then false else b) (taken-lease a p r)

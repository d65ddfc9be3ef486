-- ===== src/Pool/Guarantees.antt =====
-- What the pool promises the driver, over every sequence of calls.
use mathlib.Core.Option.{none-ne-some}
use torx.Base.{
  ℕ, zero, suc, ◌+◌, ◌≤◌, ◌<◌, ◌≡◌, ◌≢◌, ◌⊎◌, inl, inr, refl, sym, ◌∙◌, List, [], ◌∷◌, some, Bool,
  true, false, length, get_elem?, arith, not, ◌&&◌, Option-cases,
}
use torx.Base.Sort.{count_if, count-pos}
use torx.Errors.{Error, is, wrap, allocation}
use torx.Spec.{PoolSpec}
use torx.Node.{Node}
use torx.Pool.{
  Pool, SubPool, ok, err, allocate, can_allocate, pool_size, available, nodes_in_use, high_water,
  claimed, cannot_satisfy,
}
use torx.Pool.Match.{match_specs}
use torx.Pool.Match.Hall.{Assignment}
use torx.Pool.Match.Correct.{match_specs_sound, match_specs_complete}
use torx.Pool.Count.{cnt, holding, holds-cnt, cnt-append}
use torx.Pool.Ops.{live}
use torx.Pool.Sessions.{System, Op, start, run}
use torx.Pool.Invariant.{Inv, run-Inv, start-Inv}

holding-pos : (k : ℕ) (ns : List Node) → holding ns k ≡ true → 0 < cnt k ns
holding-pos k ns h = ground (arith, holds-cnt k ns)

holding-none : (k : ℕ) (ns : List Node) → cnt k ns ≡ 0 → holding ns k ≡ false
holding-none k ns h = ground (arith, holds-cnt k ns)

holding-same : (k : ℕ) (ms ns : List Node) → cnt k ms ≡ cnt k ns → holding ms k ≡ holding ns k
holding-same k ms ns h = ground (arith, holds-cnt k ms, holds-cnt k ns)

cnt-live :
    (k i : ℕ) (ss : List SubPool) (a : SubPool)
    → get_elem? ss i ≡ some a
    → a.freed ≡ false
    → cnt k a.nodes ≤ cnt k (live ss)
cnt-live k i [] a e h = cc
cnt-live k zero (s ∷ ss) a e h = ground (arith, cnt-append k s.nodes (live ss))
cnt-live k (suc i) (s ∷ ss) a e h =
    ground (arith, cnt-append k s.nodes (live ss), cnt-live k i ss a e h)

cnt-live_two :
    (k i j : ℕ) (ss : List SubPool) (a b : SubPool)
    → i ≢ j
    → get_elem? ss i ≡ some a
    → a.freed ≡ false
    → get_elem? ss j ≡ some b
    → b.freed ≡ false
    → cnt k a.nodes + cnt k b.nodes ≤ cnt k (live ss)
cnt-live_two k i j [] a b d e h f g = cc
cnt-live_two k zero zero (s ∷ ss) a b d e h f g = absurd (d refl)
cnt-live_two k zero (suc j) (s ∷ ss) a b d e h f g =
    ground (arith, cnt-append k s.nodes (live ss), cnt-live k j ss b f g)
cnt-live_two k (suc i) zero (s ∷ ss) a b d e h f g =
    ground (arith, cnt-append k s.nodes (live ss), cnt-live k i ss a e h)
cnt-live_two k (suc i) (suc j) (s ∷ ss) a b d e h f g = ground (
  arith,
  cnt-append k s.nodes (live ss),
  cnt-live_two k i j ss a b (λ q. d (omega arith)) e h f g,
)

-- A sub-pool that is still out and has the node.
abbrev pub holds_out : ℕ → SubPool → Bool
holds_out k s = not s.freed && holding s.nodes k

out-le : (k : ℕ) (ss : List SubPool) → count_if (holds_out k) ss ≤ cnt k (live ss)
out-le k [] = omega arith
out-le k (s ∷ ss) = ground (arith, holds-cnt k s.nodes, cnt-append k s.nodes (live ss), out-le k ss)

module _ (nodes : List Node) (distinct : (k : ℕ) → cnt k nodes ≤ 1) (os : List Op) where
  abbrev end : System
  end = run (start nodes) os

  holds-Inv : Inv nodes end
  holds-Inv = run-Inv nodes distinct (start nodes) os (start-Inv nodes distinct)

  -- Two sub-pools that are out have no node in common.
  pub run_apart :
      (i j k : ℕ) (a b : SubPool)
      → i ≢ j
      → get_elem? end.subs i ≡ some a
      → a.freed ≡ false
      → get_elem? end.subs j ≡ some b
      → b.freed ≡ false
      → holding a.nodes k ≡ true
      → holding b.nodes k ≡ false
  run_apart i j k a b d e h f g held =
      let two = cnt-live_two k i j end.subs a b d e h f g in
      let all = holds-Inv.conserve k in
      let some_there = holding-pos k a.nodes held in
      holding-none k b.nodes (omega (arith, distinct k))

  -- In a pool over distinct nodes, after any calls of Allocate, Free and Evict, a node of a
  -- sub-pool that is still out is not free and not evicted, and exactly one of the sub-pools that
  -- are still out has it.
  pub run-exclusive :
      (i k : ℕ) (a : SubPool)
      → get_elem? end.subs i ≡ some a
      → a.freed ≡ false
      → holding a.nodes k ≡ true
      → (holding end.pool.free_nodes k ≡ false)
        × (holding end.gone k ≡ false)
        × (count_if (holds_out k) end.subs ≡ 1)
  run-exclusive i k a e h held =
      let out = cnt-live k i end.subs a e h in
      let all = holds-Inv.conserve k in
      let some_there = holding-pos k a.nodes held in
      (
        holding-none k end.pool.free_nodes (omega (arith, distinct k)),
        holding-none k end.gone (omega (arith, distinct k)),
        omega (
          arith,
          distinct k,
          out-le k end.subs,
          count-pos (holds_out k) end.subs i a e (ground arith),
        ),
      )

  -- Under the same calls, the free nodes, the nodes in use and the evicted ones add up to the size
  -- of the pool, which never changes; the nodes in use are those of the live sub-pools; and the
  -- high-water mark lies between the nodes in use and the size.
  pub run-accounts :
      (available end.pool + nodes_in_use end.pool + length end.gone ≡ pool_size end.pool)
      × (pool_size end.pool ≡ length nodes)
      × ((k : ℕ) → holding end.pool.in_use k ≡ holding (live end.subs) k)
      × (nodes_in_use end.pool ≤ high_water end.pool)
      × (high_water end.pool ≤ pool_size end.pool)
  unfolding available nodes_in_use pool_size high_water
  run-accounts = (
    holds-Inv.sizes,
    holds-Inv.total_is,
    (λ k. holding-same k end.pool.in_use (live end.subs) (holds-Inv.tracked k)),
    holds-Inv.high,
    holds-Inv.high_le,
  )

  -- An evicted node is never handed out again: it stays out of the free nodes and of those in use.
  pub run-evicted :
      (k : ℕ)
      → holding end.gone k ≡ true
      → (holding end.pool.free_nodes k ≡ false) × (holding end.pool.in_use k ≡ false)
  run-evicted k held =
      let some_there = holding-pos k end.gone held in
      let all = holds-Inv.conserve k in
      (
        holding-none k end.pool.free_nodes (omega (arith, distinct k)),
        holding-none k end.pool.in_use (omega (arith, distinct k, holds-Inv.tracked k)),
      )

-- A granted request: one node for each spec, in order and satisfying it, at distinct places of
-- the free nodes.
abbrev pub Granted : Pool → PoolSpec → SubPool → Type 0
Granted p spec sub =
    (sub.freed ≡ false)
    × (length sub.nodes ≡ length spec.nodes)
    × ((a : Assignment spec.nodes p.free_nodes) × ((i : ℕ)
          → i < length spec.nodes
          → get_elem? sub.nodes i ≡ get_elem? p.free_nodes (a.place i)))

-- Allocate either grants the request, just when CanAllocate says so, or leaves the pool as it was
-- with an error of the allocation category, just when no assignment of distinct free nodes to the
-- specs exists.
pub allocate_all_or_nothing :
    (p : Pool) (spec : PoolSpec)
    → ((p' : Pool) × (sub : SubPool) × (allocate p spec ≡ (p', ok sub))
        × Granted p spec sub
        × (can_allocate p spec ≡ true))
      ⊎ ((e : Error) × (allocate p spec ≡ (p, err e))
          × (is allocation e ≡ true)
          × (¬ Assignment spec.nodes p.free_nodes)
          × (can_allocate p spec ≡ false))
unfolding allocate can_allocate is wrap
allocate_all_or_nothing p spec = elim (Option-cases (match_specs p.free_nodes spec.nodes)) [
  | inl no_match ↦ inr (
    cannot_satisfy,
    rw (no_match, allocate),
    refl,
    (λ a.
        let (nodes, e) = match_specs_complete spec.nodes p.free_nodes a in
        none-ne-some nodes (sym no_match ∙ e)),
    rw (no_match, can_allocate),
  )
  | inr (assigned, e) ↦
      let (len, found) = match_specs_sound spec.nodes p.free_nodes assigned e in
      inl (
        claimed p assigned,
        record { nodes = assigned; freed = false },
        rw (e, allocate),
        (refl, len, found),
        rw (e, can_allocate),
      )
]

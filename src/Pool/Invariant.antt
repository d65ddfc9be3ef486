-- ===== src/Pool/Invariant.antt =====
-- What holds of a pool and its sub-pools after any calls: each node is free, or in one live
-- sub-pool, or gone, and `inUse` holds just the nodes of the live sub-pools.
use torx.Base.{
  ℕ, ◌+◌, ◌≤◌, ◌≡◌, inl, inr, refl, sym, subst, List, [], ◌∷◌, ◌++◌, some, true, false, not, length,
  select, get_elem?, set, if◌then◌else◌, ltb, arith, Bool-cases, Option-cases, length-append,
  set-same,
}
use torx.Spec.{PoolSpec}
use torx.Node.{Node}
use torx.Pool.{SubPool, new_pool, allocate, claim_all, unclaim_all}
use torx.Pool.Match.{match_specs}
use torx.Pool.Match.Correct.{match_specs_sound}
use torx.Pool.Count.{
  cnt, holding, holds-cnt, cnt-without, cnt-append, cnt-picked, length-without_all,
}
use torx.Pool.Ops.{claim_all_lem, cnt-unclaim_all, length-unclaim_all, live, live-append, live-set}
use torx.Pool.Sessions.{
  System, Op, allocates, frees, evicts, start, step, run, free_done, evict_done, free_out,
  evict_out,
}

module _ (nodes : List Node) where
  pub record Inv (s : System) : Type 0 where
    pub conserve :
        (k : ℕ) → cnt k s.pool.free_nodes + cnt k (live s.subs) + cnt k s.gone ≡ cnt k nodes
    pub tracked : (k : ℕ) → cnt k s.pool.in_use ≡ cnt k (live s.subs)
    pub sizes : length s.pool.free_nodes + length s.pool.in_use + length s.gone ≡ s.pool.total
    pub total_is : s.pool.total ≡ length nodes
    pub high : length s.pool.in_use ≤ s.pool.max_used
    pub high_le : s.pool.max_used ≤ s.pool.total

  module _ (distinct : (k : ℕ) → cnt k nodes ≤ 1) where
    -- What Allocate hands out is taken from the free nodes, each once.
    pub assigned_once :
        (s : System) (spec : PoolSpec) (assigned : List Node)
        → Inv s
        → match_specs s.pool.free_nodes spec.nodes ≡ some assigned
        → (k : ℕ) → cnt k assigned ≤ cnt k s.pool.free_nodes
    assigned_once s spec assigned v e k =
        let (len, found) = match_specs_sound spec.nodes s.pool.free_nodes assigned e in
        let (a, at) = found in
        cnt-picked assigned s.pool.free_nodes a.place (λ i h. at i (omega (arith, len)))
          (λ i j h h'. a.distinct i j (omega (arith, len)) (omega (arith, len))) k
          (omega (arith, v.conserve k, distinct k))

    abbrev granted : System → List Node → System
    granted s assigned =
        let used = claim_all s.pool.in_use assigned in
        record s {
          pool = record s.pool {
            free_nodes = select (λ n. not (holding assigned n.id)) s.pool.free_nodes;
            in_use = used;
            max_used = if ltb s.pool.max_used (length used) then length used else s.pool.max_used;
          };
          subs = s.subs ++ record { nodes = assigned; freed = false } ∷ [];
        }

    granted-Inv :
        (s : System) (assigned : List Node)
        → Inv s
        → ((k : ℕ) → cnt k assigned ≤ cnt k s.pool.free_nodes)
        → Inv (granted s assigned)
    granted-Inv s assigned v le =
        let (counts, len) =
          claim_all_lem s.pool.in_use assigned
            (λ k. omega (arith, le k, v.conserve k, v.tracked k, distinct k)) in
        let kept =
          length-without_all assigned s.pool.free_nodes le
            (λ k. omega (arith, v.conserve k, distinct k)) in
        record {
          conserve = λ k. ground (
            arith,
            v.conserve k,
            le k,
            distinct k,
            holds-cnt k assigned,
            cnt-without k (holding assigned) s.pool.free_nodes,
            live-append s.subs (record { nodes = assigned; freed = false }) k refl,
          );
          tracked = λ k. omega (
            arith,
            counts k,
            v.tracked k,
            live-append s.subs (record { nodes = assigned; freed = false }) k refl,
          );
          sizes = omega (arith, kept, len, v.sizes);
          total_is = v.total_is;
          high = ground arith;
          high_le = ground (arith, kept, len, v.sizes, v.high_le);
        }

    allocates-Inv : (s : System) (spec : PoolSpec) → Inv s → Inv (step s (allocates spec))
    unfolding step allocate
    allocates-Inv s spec v = elim (Option-cases (match_specs s.pool.free_nodes spec.nodes)) [
      | inl no_match ↦
          rw (no_match, allocate, step)
            (record {
              conserve = v.conserve;
              tracked = v.tracked;
              sizes = v.sizes;
              total_is = v.total_is;
              high = v.high;
              high_le = v.high_le;
            })
      | inr (assigned, e) ↦
          rw (e, allocate, step) (granted-Inv s assigned v (assigned_once s spec assigned v e))
    ]

    abbrev marked : SubPool → SubPool
    marked sub = record sub { freed = true }

    module _ (s : System) (i : ℕ) (sub : SubPool) (v : Inv s) (here : get_elem? s.subs i ≡ some sub)
        (out : sub.freed ≡ false) where
      returned_le : (k : ℕ) → cnt k sub.nodes ≤ cnt k s.pool.in_use
      returned_le k = omega (arith, live-set s.subs i sub k here out, v.tracked k)

      in_use_once : (k : ℕ) → cnt k s.pool.in_use ≤ 1
      in_use_once k = omega (arith, v.tracked k, v.conserve k, distinct k)

      tracked_after :
          (k : ℕ)
          → cnt k (unclaim_all s.pool.in_use sub.nodes) ≡ cnt k (live (set s.subs i (marked sub)))
      tracked_after k = ground (
        arith,
        cnt-unclaim_all k s.pool.in_use sub.nodes,
        holds-cnt k sub.nodes,
        live-set s.subs i sub k here out,
        v.tracked k,
        in_use_once k,
      )

      fewer : length (unclaim_all s.pool.in_use sub.nodes) + length sub.nodes ≡ length s.pool.in_use
      fewer = length-unclaim_all s.pool.in_use sub.nodes returned_le in_use_once

      freed-Inv : Inv (record s {
        pool = record s.pool {
          free_nodes = s.pool.free_nodes ++ sub.nodes;
          in_use = unclaim_all s.pool.in_use sub.nodes;
        };
        subs = set s.subs i (marked sub);
      })
      freed-Inv = record {
        conserve = λ k. omega (
          arith,
          v.conserve k,
          live-set s.subs i sub k here out,
          cnt-append k s.pool.free_nodes sub.nodes,
        );
        tracked = tracked_after;
        sizes = omega (arith, fewer, v.sizes, length-append s.pool.free_nodes sub.nodes);
        total_is = v.total_is;
        high = omega (arith, fewer, v.high);
        high_le = v.high_le;
      }

      evicted-Inv : Inv (record s {
        pool = record s.pool { in_use = unclaim_all s.pool.in_use sub.nodes };
        subs = set s.subs i (marked sub);
        gone = sub.nodes ++ s.gone;
      })
      evicted-Inv = record {
        conserve = λ k.
            omega (
              arith,
              v.conserve k,
              live-set s.subs i sub k here out,
              cnt-append k sub.nodes s.gone,
            );
        tracked = tracked_after;
        sizes = omega (arith, fewer, v.sizes, length-append sub.nodes s.gone);
        total_is = v.total_is;
        high = omega (arith, fewer, v.high);
        high_le = v.high_le;
      }

    -- A second call on one sub-pool changes nothing.
    same-Inv :
        (s : System) (i : ℕ) (sub : SubPool)
        → get_elem? s.subs i ≡ some sub
        → Inv s
        → Inv (record s { pool = s.pool; subs = set s.subs i sub; gone = s.gone })
    same-Inv s i sub here v = record {
      conserve = λ k. rw (set-same s.subs i here) (v.conserve k);
      tracked = λ k. rw (set-same s.subs i here) (v.tracked k);
      sizes = v.sizes;
      total_is = v.total_is;
      high = v.high;
      high_le = v.high_le;
    }

    frees-Inv : (s : System) (i : ℕ) → Inv s → Inv (step s (frees i))
    unfolding step
    frees-Inv s i v = elim (Option-cases (get_elem? s.subs i)) [
      | inl none_there ↦ rw (none_there, step) v
      | inr (sub, here) ↦ elim (Bool-cases sub.freed) [
        | inl done ↦ rw (here, step, free_done s.pool sub done) (same-Inv s i sub here v)
        | inr out ↦ rw (here, step, free_out s.pool sub out) (freed-Inv s i sub v here out)
      ]
    ]

    evicts-Inv : (s : System) (i : ℕ) → Inv s → Inv (step s (evicts i))
    unfolding step
    evicts-Inv s i v = elim (Option-cases (get_elem? s.subs i)) [
      | inl none_there ↦ rw (none_there, step) v
      | inr (sub, here) ↦ elim (Bool-cases sub.freed) [
        | inl done ↦
            rw (here, step, evict_done s.pool sub done)
              (subst
                (λ b. Inv (record s {
                  pool = s.pool;
                  subs = set s.subs i sub;
                  gone = if b then s.gone else sub.nodes ++ s.gone;
                }))
                (sym done) (same-Inv s i sub here v))
        | inr out ↦ rw (here, step, evict_out s.pool sub out, out) (evicted-Inv s i sub v here out)
      ]
    ]

    pub run-Inv : (s : System) (os : List Op) → Inv s → Inv (run s os)
    unfolding run
    run-Inv s [] v = v
    run-Inv s (allocates spec ∷ os) v =
        run-Inv (step s (allocates spec)) os (allocates-Inv s spec v)
    run-Inv s (frees i ∷ os) v = run-Inv (step s (frees i)) os (frees-Inv s i v)
    run-Inv s (evicts i ∷ os) v = run-Inv (step s (evicts i)) os (evicts-Inv s i v)

    pub start-Inv : Inv (start nodes)
    unfolding new_pool
    start-Inv = record {
      conserve = λ k. omega arith;
      tracked = λ k. refl;
      sizes = omega arith;
      total_is = refl;
      high = omega arith;
      high_le = omega arith;
    }

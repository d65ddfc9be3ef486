-- ===== src/Pool/Ops.antt =====
-- The map of nodes in use under the writes of Allocate, Free and Evict.
use torx.Base.{
  ℕ, zero, suc, ◌+◌, ◌≤◌, ◌≡◌, refl, List, [], ◌∷◌, ◌++◌, some, true, false, not, length, select,
  get_elem?, set, if◌then◌else◌, ◌==◌, arith,
}
use torx.Node.{Node}
use torx.Pool.{SubPool, claim, claim_all, unclaim_all}
use torx.Pool.Count.{cnt, holding, holds-cnt, cnt-without, length-without, cnt-append}

cnt-claim :
    (k : ℕ) (used : List Node) (n : Node)
    → cnt n.id used ≡ 0
    → cnt k (claim used n) ≡ cnt k (n ∷ used)
unfolding claim
cnt-claim k used n h = ground (arith, holds-cnt n.id used)

length-claim :
    (used : List Node) (n : Node) → cnt n.id used ≡ 0 → length (claim used n) ≡ suc (length used)
unfolding claim
length-claim used n h = ground (arith, holds-cnt n.id used)

-- Claiming nodes that are not in use, each once, adds just them.
pub claim_all_lem :
    (used ns : List Node)
    → ((k : ℕ) → cnt k used + cnt k ns ≤ 1)
    → ((k : ℕ) → cnt k (claim_all used ns) ≡ cnt k used + cnt k ns)
      × (length (claim_all used ns) ≡ length used + length ns)
unfolding claim_all
claim_all_lem used [] h = ((λ k. omega arith), omega arith)
claim_all_lem used (n ∷ ns) h =
    let fresh : cnt n.id used ≡ 0 = ground (arith, h n.id) in
    let (counts, len) =
      claim_all_lem (claim used n) ns (λ k. ground (arith, h k, cnt-claim k used n fresh)) in
    (
      (λ k. ground (arith, counts k, cnt-claim k used n fresh)),
      omega (arith, len, length-claim used n fresh),
    )

pub cnt-unclaim_all :
    (k : ℕ) (used ns : List Node)
    → cnt k (unclaim_all used ns) ≡ (if holding ns k then 0 else cnt k used)
unfolding unclaim_all
cnt-unclaim_all k used [] = refl
cnt-unclaim_all k used (n ∷ ns) = ground (
  arith,
  cnt-unclaim_all k (select (λ m. not (m.id == n.id)) used) ns,
  cnt-without k (λ i. i == n.id) used,
)

cnt_self : (n : Node) (ns : List Node) → 1 ≤ cnt n.id (n ∷ ns)
cnt_self n ns = ground arith

pub length-unclaim_all :
    (used ns : List Node)
    → ((k : ℕ) → cnt k ns ≤ cnt k used)
    → ((k : ℕ) → cnt k used ≤ 1)
    → length (unclaim_all used ns) + length ns ≡ length used
unfolding unclaim_all
length-unclaim_all used [] le once = omega arith
length-unclaim_all used (n ∷ ns) le once =
    let rest = select (λ (m : Node). not (m.id == n.id)) used in
    omega (
      arith,
      length-unclaim_all rest ns
          (λ k. ground (arith, cnt-without k (λ i. i == n.id) used, le k, once k))
          (λ k. ground (arith, cnt-without k (λ i. i == n.id) used, once k)),
      length-without n.id used,
      le n.id,
      once n.id,
      cnt_self n ns,
    )

-- The nodes of the sub-pools that are still out.
abbrev pub live : List SubPool → List Node
live [] = []
live (s ∷ ss) = if s.freed then live ss else s.nodes ++ live ss

pub live-append :
    (ss : List SubPool) (s : SubPool) (k : ℕ)
    → s.freed ≡ false
    → cnt k (live (ss ++ s ∷ [])) ≡ cnt k (live ss) + cnt k s.nodes
live-append [] s k h = ground (arith, cnt-append k s.nodes [])
live-append (x ∷ ss) s k h = ground (
  arith,
  live-append ss s k h,
  cnt-append k x.nodes (live (ss ++ s ∷ [])),
  cnt-append k x.nodes (live ss),
)

-- Marking a sub-pool as freed takes its nodes out of the live ones.
pub live-set :
    (ss : List SubPool) (i : ℕ) (s : SubPool) (k : ℕ)
    → get_elem? ss i ≡ some s
    → s.freed ≡ false
    → cnt k (live (set ss i (record s { freed = true }))) + cnt k s.nodes ≡ cnt k (live ss)
live-set [] i s k e h = cc
live-set (x ∷ ss) zero s k e h = ground (arith, cnt-append k s.nodes (live ss))
live-set (x ∷ ss) (suc i) s k e h = ground (
  arith,
  live-set ss i s k e h,
  cnt-append k x.nodes (live ss),
  cnt-append k x.nodes (live (set ss i (record s { freed = true }))),
)

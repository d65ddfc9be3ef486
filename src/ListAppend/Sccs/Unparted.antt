-- ===== src/ListAppend/Sccs/Unparted.antt =====
-- listappend/listappend.go: sccs returns a component for every cycle, within its fuel.
use torx.Base.{
  ℕ, suc, ◌+◌, ◌≡◌, ◌≤◌, ◌<◌, refl, subst, ap, inl, inr, List, [], ◌∷◌, none, Bool, true, length,
  get_elem?, replicate, In, All, In-All, All-of_In, arith, ltb,
}
use torx.Base.Sort.{sort_stable}
use torx.ListAppend.Search.{Kind}
use torx.ListAppend.Search.Graph.{Walk}
use torx.ListAppend.{Edge, Checker, edges_of, or_empty}
use torx.ListAppend.Sccs.{fresh, sccs_of, sccs, rounds}
use torx.ListAppend.Sccs.Layers.{Among, closed-Walk, In-sort, two_of}
use torx.ListAppend.Sccs.Correct.{roots-Between, start-Between}
use torx.ListAppend.Sccs.Work.{unmet}

sccs_of_cycle :
    (adj : ℕ → List Edge) (ok : Kind → Bool) (n fuel : ℕ)
    → ((x y : ℕ) (k : Kind) → In (y, k) (adj x) → y < n)
    → unmet adj ok n 0 0 (replicate n none) ≤ fuel
    → (v w : ℕ) (vs : List ℕ) (ks : List Kind) → v < n
    → Walk adj v vs ks v
    → All (λ k. ok k ≡ true) ks
    → In w vs
    → (v ≡ w → ⊥)
    → (comp : List ℕ) × In comp (sccs_of adj ok fuel n) × In v comp × All (λ u. In u comp) vs
unfolding sccs_of
sccs_of_cycle adj ok n fuel bound enough v w vs ks lt walk oks i other =
    let (comps, b) =
      roots-Between adj ok n bound fuel n 0 (fresh adj ok n) [] (start-Between adj ok n bound)
        (omega arith) (omega (arith, enough)) in
    let (j, at) = b.met v lt in
    let there : Among v comps = elim ((b.sound).held v j at) [
      | inl here ↦ elim (subst (In v) b.no_st here.0) [ ]
      | inr gone ↦ gone.0
    ] in
    let (comp, listed, inside, all) =
      closed-Walk adj ok comps v vs ks (b.sound).layers there walk oks in
    let two = two_of comp v w inside (In-All (λ u. In u comp) vs w all i) other in
    (
      sort_stable ltb comp,
      (b.sound).out_has comp listed two,
      In-sort v comp inside,
      All-of_In (λ u. In u (sort_stable ltb comp)) vs
          (λ u k. In-sort u comp (In-All (λ z. In z comp) vs u all k)),
    )

-- The fuel of sccs is what is to be done at first.
unmet-rounds :
    (adj : ℕ → List Edge) (ok : Kind → Bool) (n k : ℕ) (es : List (List Edge))
    → ((i : ℕ) → adj (k + i) ≡ or_empty (get_elem? es i))
    → unmet adj ok n 0 k (replicate (length es) none) ≡ rounds es
unmet-rounds adj ok n k [] same = refl
unmet-rounds adj ok n k (e ∷ es) same =
    let here = ap length (same 0) in
    let at : k + 0 ≡ k = omega arith in
    let here' = subst (λ z. length (adj z) ≡ length e) at here in
    let later =
      unmet-rounds adj ok n (suc k) es
        (λ i. subst (λ z. adj z ≡ or_empty (get_elem? es i)) (plus_suc k i) (same (suc i))) in
    omega (arith, here', later)
  where
    plus_suc : (k i : ℕ) → k + suc i ≡ suc k + i
    plus_suc k i = omega arith

-- Where the graph has a row of edges for each transaction and they lead to transactions, sccs
-- returns within its fuel, for every cycle of two transactions or more along edges that `ok` accepts, a component
-- that holds the whole cycle.
pub sccs_cycle :
    (c : Checker) (ok : Kind → Bool)
    → ((x y : ℕ) (k : Kind) → In (y, k) (edges_of c x) → y < length c.txns)
    → length c.adj ≡ length c.txns
    → (v w : ℕ) (vs : List ℕ) (ks : List Kind) → Walk (edges_of c) v vs ks v
    → All (λ k. ok k ≡ true) ks
    → In w vs
    → (v ≡ w → ⊥)
    → (comp : List ℕ) × In comp (sccs c ok) × In v comp × All (λ u. In u comp) vs
unfolding sccs
sccs_cycle c ok bound size v w vs ks walk oks i other =
    let n = length c.txns in
    let enough =
      unmet-rounds (edges_of c) ok n 0 c.adj
        (λ j. let at : 0 + j ≡ j = omega arith in ap (edges_of c) at) in
    sccs_of_cycle (edges_of c) ok n (rounds c.adj) bound
      (subst (λ z. unmet (edges_of c) ok n 0 0 (replicate z none) ≤ rounds c.adj) size
        (omega (arith, enough)))
      v w vs ks (ends_below (edges_of c) n bound v vs ks v walk) walk oks i other
  where
    ends_below :
        (adj : ℕ → List Edge) (n : ℕ)
        → ((x y : ℕ) (k : Kind) → In (y, k) (adj x) → y < n)
        → (x : ℕ) (vs : List ℕ) (ks : List Kind) (d : ℕ) → Walk adj x vs ks d
        → d < n
    ends_below adj n bound x vs [] d walk = elim walk [ ]
    ends_below adj n bound x [] (k ∷ ks) d walk = bound x d k walk.0
    ends_below adj n bound x (u ∷ vs) (k ∷ ks) d walk = ends_below adj n bound u vs ks d walk.1

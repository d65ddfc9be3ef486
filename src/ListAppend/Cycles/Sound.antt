-- ===== src/ListAppend/Cycles/Sound.antt =====
-- listappend/listappend.go: what cycles reports is there, in the graph of dependencies.
use torx.Base.{
  ℕ, ◌≡◌, refl, sym, subst, inl, inr, List, [], ◌∷◌, Option, none, some, Bool, true, false, not,
  ◌&&◌, ◌||◌, any, length, ◌==◌, In, Distinct, All, All-In, arith, Bool-cases, Option-cases,
}
use torx.Base.Sort.{count_if}
use torx.ListAppend.Search.{Kind, Found, read_write}
use torx.ListAppend.Search.Graph.{Walk}
use torx.ListAppend.{Edge, Checker, edges_of}
use torx.ListAppend.Cycles.{
  is_rw, not_rw, within, path, shorter, cycle_from, cycle_within, single_edges, single_from,
  g_single_of,
}
use torx.ListAppend.Cycles.Paths.{path-IsPath, path_within}

-- A closed walk in the graph, from its first vertex.
abbrev pub Closed : Checker → Found ℕ → Type 0
Closed c ([], ks) = ⊥
Closed c (v ∷ vs, ks) = Walk (edges_of c) v vs ks v

-- No two rw edges in a row, where the edge before was one or was not.
abbrev pub spaced : Bool → List Kind → Bool
spaced before [] = true
spaced before (k ∷ ks) = not (is_rw k && before) && spaced (is_rw k) ks

abbrev pub last_rw : Bool → List Kind → Bool
last_rw before [] = before
last_rw before (k ∷ ks) = last_rw (is_rw k) ks

-- A cycle in a component whose edges `ok` accepts, and that visits no transaction twice.
abbrev pub SimpleCycle : Checker → List ℕ → (Kind → Bool) → Found ℕ → Type 0
SimpleCycle c comp ok f =
    Closed c f × Distinct f.0 × All (λ k. ok k ≡ true) f.1 × All (λ v. In v comp) f.0

abbrev pub SingleCycle : Checker → Found ℕ → Type 0
SingleCycle c f = Closed c f × (count_if is_rw f.1 ≡ 1)

-- No two rw edges are in a row, also where the cycle closes.
abbrev pub SpacedCycle : Checker → Found ℕ → Type 0
SpacedCycle c f =
    Closed c f × Distinct f.0 × (any is_rw f.1 ≡ true) × (spaced (last_rw false f.1) f.1 ≡ true)

path-SimpleCycle :
    (c : Checker) (comp : List ℕ) (ok : Kind → Bool) (v : ℕ) (f : Found ℕ)
    → In v comp
    → path c comp ok v v ≡ some f
    → SimpleCycle c comp ok f
path-SimpleCycle c comp ok v ([], ks) i e = elim (path-IsPath c comp ok v v ([], ks) e).0 [ ]
path-SimpleCycle c comp ok v (u ∷ us, ks) i e =
    let ((at, w, ds), oks) = path-IsPath c comp ok v v (u ∷ us, ks) e in
    (
      subst (λ z. Walk (edges_of c) u us ks z) (sym at) w,
      ds,
      oks,
      (subst (λ z. In z comp) (sym at) i, path_within c comp ok v v u us ks e),
    )

abbrev Simple : Checker → List ℕ → (Kind → Bool) → Option (Found ℕ) → Type 0
Simple c comp ok none = Unit {0}
Simple c comp ok (some f) = SimpleCycle c comp ok f

cycle_from-Simple :
    (c : Checker) (comp : List ℕ) (ok : Kind → Bool) (vs : List ℕ) (best : Option (Found ℕ))
    → All (λ v. In v comp) vs
    → Simple c comp ok best
    → Simple c comp ok (cycle_from c comp ok vs best)
unfolding cycle_from
cycle_from-Simple c comp ok [] best ins h = h
cycle_from-Simple c comp ok (v ∷ vs) best ins h = elim (Option-cases (path c comp ok v v)) [
  | inl e ↦ rw (cycle_from, e) (cycle_from-Simple c comp ok vs best ins.1 h)
  | inr (f, e) ↦ elim (Bool-cases (shorter f best)) [
    | inl s ↦ elim (Bool-cases (length f.0 == 2)) [
      | inl two ↦ rw (cycle_from, e, s, two) (path-SimpleCycle c comp ok v f ins.0 e)
      | inr more ↦
          rw (cycle_from, e, s, more)
            (cycle_from-Simple c comp ok vs (some f) ins.1 (path-SimpleCycle c comp ok v f ins.0 e))
    ]
    | inr s ↦ rw (cycle_from, e, s) (cycle_from-Simple c comp ok vs best ins.1 h)
  ]
]

pub cycle_within-SimpleCycle :
    (c : Checker) (comp : List ℕ) (ok : Kind → Bool) (f : Found ℕ)
    → cycle_within c comp ok ≡ some f
    → SimpleCycle c comp ok f
unfolding cycle_within
cycle_within-SimpleCycle c comp ok f e =
    subst (Simple c comp ok) e (cycle_from-Simple c comp ok comp none (All-In comp) tt)

count_none : (ks : List Kind) → All (λ k. not_rw k ≡ true) ks → count_if is_rw ks ≡ 0
count_none [] h = refl
count_none (k ∷ ks) h = ground (arith, h.0, count_none ks h.1)

abbrev Single : Checker → Option (Found ℕ) → Type 0
Single c none = Unit {0}
Single c (some f) = SingleCycle c f

is_rw-eq : (k : Kind) → is_rw k ≡ true → k ≡ read_write
is_rw-eq k e = ground (arith, e)

path-SingleCycle :
    (c : Checker) (comp : List ℕ) (a to : ℕ) (f : Found ℕ)
    → In (to, read_write) (edges_of c a)
    → path c comp not_rw to a ≡ some f
    → SingleCycle c (a ∷ f.0, read_write ∷ f.1)
path-SingleCycle c comp a to ([], ks) i e = elim (path-IsPath c comp not_rw to a ([], ks) e).0 [ ]
path-SingleCycle c comp a to (u ∷ us, ks) i e =
    let ((at, w, ds), oks) = path-IsPath c comp not_rw to a (u ∷ us, ks) e in
    (
      (subst (λ z. In (z, read_write) (edges_of c a)) (sym at) i, w),
      omega (arith, count_none ks oks),
    )

single_edges-Single :
    (c : Checker) (comp : List ℕ) (a : ℕ) (es : List Edge)
    → ((to : ℕ) (k : Kind) → In (to, k) es → In (to, k) (edges_of c a))
    → Single c (single_edges c comp a es)
unfolding single_edges
single_edges-Single c comp a [] sub = tt
single_edges-Single c comp a ((to, kind) ∷ es) sub =
    let later = single_edges-Single c comp a es (λ u k i. sub u k (inr i)) in
    elim (Bool-cases (not (is_rw kind) || not (within comp to))) [
      | inl skip ↦ rw (skip) later
      | inr on ↦ elim (Option-cases (path c comp not_rw to a)) [
        | inl e ↦ rw (on, e) later
        | inr (f, e) ↦
            rw (on, e)
              (path-SingleCycle c comp a to f
                (subst (λ z. In (to, z) (edges_of c a)) (is_rw-eq kind (ground (arith, on)))
                  (sub to kind (inl refl)))
                e)
      ]
    ]

single_from-Single : (c : Checker) (comp vs : List ℕ) → Single c (single_from c comp vs)
unfolding single_from
single_from-Single c comp [] = tt
single_from-Single c comp (a ∷ vs) = elim (Option-cases (single_edges c comp a (edges_of c a))) [
  | inl e ↦ rw (single_from, e) (single_from-Single c comp vs)
  | inr (f, e) ↦
      rw (single_from, e)
        (subst (Single c) e (single_edges-Single c comp a (edges_of c a) (λ u k i. i)))
]

pub g_single-SingleCycle :
    (c : Checker) (comp : List ℕ) (f : Found ℕ) → g_single_of c comp ≡ some f → SingleCycle c f
unfolding g_single_of
g_single-SingleCycle c comp f e = subst (Single c) e (single_from-Single c comp comp)

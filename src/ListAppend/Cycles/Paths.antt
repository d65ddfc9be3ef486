-- ===== src/ListAppend/Cycles/Paths.antt =====
-- listappend/listappend.go: what path and the searches of nonadjacent find, and what path does not
-- miss.
use torx.Base.{
  ℕ, suc, ◌≡◌, refl, sym, subst, inl, inr, List, [], ◌∷◌, none, some, Bool, true, ◌&&◌, length,
  ◌==◌, ==_self, In, In-select, select-In, All, arith, Bool-cases,
}
use torx.ListAppend.Search.{Kind, Found}
use torx.ListAppend.Search.Graph.{Walk, IsWalk}
use torx.ListAppend.Search.Correct.{search-Accepted, search_no-Walk}
use torx.ListAppend.{Checker, edges_of}
use torx.ListAppend.Cycles.{within, inside, path}

pub ==-eq : (x y : ℕ) → (x == y) ≡ true → x ≡ y
==-eq x y e = ground (arith, e)

within-In : (comp : List ℕ) (v : ℕ) → within comp v ≡ true → In v comp
within-In [] v h = ground (arith, h)
within-In (x ∷ comp) v h = elim (Bool-cases (v == x)) [
  | inl e ↦ inl (==-eq v x e)
  | inr e ↦ inr (within-In comp v (ground (arith, h)))
]

pub In-within : (comp : List ℕ) (v : ℕ) → In v comp → within comp v ≡ true
In-within [] v i = elim i [ ]
In-within (x ∷ comp) v (inl e) = ground (arith, e)
In-within (x ∷ comp) v (inr i) = ground (arith, In-within comp v i)

-- A walk whose edges come from a larger graph, all of a kind, between the vertices of a list.
Walk-inside :
    (c : Checker) (comp : List ℕ) (ok : Kind → Bool) (v : ℕ) (vs : List ℕ) (ks : List Kind) (d : ℕ)
    → Walk (inside c comp ok) v vs ks d
    → Walk (edges_of c) v vs ks d × All (λ k. ok k ≡ true) ks × All (λ w. In w comp) vs
Walk-inside c comp ok v vs [] d w = elim w [ ]
Walk-inside c comp ok v [] (k ∷ ks) d w =
    let (i, h) = In-select (λ e. ok e.1 && within comp e.0) (edges_of c v) (d, k) w.0 in
    ((i, w.1), (ground (arith, h), subst (λ z. All (λ j. ok j ≡ true) z) (sym w.1) tt), tt)
Walk-inside c comp ok v (u ∷ vs) (k ∷ ks) d w =
    let (i, h) = In-select (λ e. ok e.1 && within comp e.0) (edges_of c v) (u, k) w.0 in
    let (walk, oks, ins) = Walk-inside c comp ok u vs ks d w.1 in
    ((i, walk), (ground (arith, h), oks), (within-In comp u (ground (arith, h)), ins))

pub inside-Walk :
    (c : Checker) (comp : List ℕ) (ok : Kind → Bool) (v : ℕ) (vs : List ℕ) (ks : List Kind) (d : ℕ)
    → Walk (edges_of c) v vs ks d
    → All (λ k. ok k ≡ true) ks
    → All (λ w. In w comp) vs
    → In d comp
    → Walk (inside c comp ok) v vs ks d
inside-Walk c comp ok v vs [] d w oks ins i = elim w [ ]
inside-Walk c comp ok v [] (k ∷ ks) d w oks ins i = (
  select-In (λ e. ok e.1 && within comp e.0) (edges_of c v) (d, k) w.0
      (rw (oks.0, In-within comp d i) refl),
  w.1,
)
inside-Walk c comp ok v (u ∷ vs) (k ∷ ks) d w oks ins i = (
  select-In (λ e. ok e.1 && within comp e.0) (edges_of c v) (u, k) w.0
      (rw (oks.0, In-within comp u ins.0) refl),
  inside-Walk c comp ok u vs ks d w.1 oks.1 ins.1 i,
)

-- What path returns.
abbrev pub IsPath : Checker → List ℕ → (Kind → Bool) → ℕ → ℕ → Found ℕ → Type 0
IsPath c comp ok src dst f = IsWalk (edges_of c) src dst f × All (λ k. ok k ≡ true) f.1

pub path-IsPath :
    (c : Checker) (comp : List ℕ) (ok : Kind → Bool) (src dst : ℕ) (f : Found ℕ)
    → path c comp ok src dst ≡ some f
    → IsPath c comp ok src dst f
unfolding path
path-IsPath c comp ok src dst ([], ks) e =
    elim (search-Accepted ◌==◌ ==-eq ==_self (inside c comp ok) (λ f. true) dst (suc (length comp))
      src ([], ks) e).0 [ ]
path-IsPath c comp ok src dst (v ∷ vs, ks) e =
    let ((at, w, ds), _) =
      search-Accepted ◌==◌ ==-eq ==_self (inside c comp ok) (λ f. true) dst (suc (length comp)) src
        (v ∷ vs, ks) e in
    let (walk, oks, ins) = Walk-inside c comp ok v vs ks dst w in ((at, walk, ds), oks)

pub path_misses_none :
    (c : Checker) (comp : List ℕ) (ok : Kind → Bool) (src dst : ℕ)
    → path c comp ok src dst ≡ none
    → (vs : List ℕ) (ks : List Kind) → Walk (inside c comp ok) src vs ks dst
    → ⊥
unfolding path
path_misses_none c comp ok src dst e vs ks w =
    search_no-Walk ◌==◌ ==-eq ==_self (inside c comp ok) (λ f. true) dst (λ f. refl) comp
      (λ v u k i.
        within-In comp u
          (ground (arith, (In-select (λ e. ok e.1 && within comp e.0) (edges_of c v) (u, k) i).1)))
      src e vs ks w

pub path_within :
    (c : Checker) (comp : List ℕ) (ok : Kind → Bool) (src dst u : ℕ) (us : List ℕ) (ks : List Kind)
    → path c comp ok src dst ≡ some (u ∷ us, ks)
    → All (λ w. In w comp) us
unfolding path
path_within c comp ok src dst u us ks e =
    let ((at, w, ds), _) =
      search-Accepted ◌==◌ ==-eq ==_self (inside c comp ok) (λ f. true) dst (suc (length comp)) src
        (u ∷ us, ks) e in
    (Walk-inside c comp ok u us ks dst w).2

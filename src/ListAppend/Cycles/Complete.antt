-- ===== src/ListAppend/Cycles/Complete.antt =====
-- listappend/listappend.go: what cycleWithin and gSingle do not miss.
use torx.Base.{
  ℕ, ◌≡◌, ◌≢◌, refl, sym, subst, ◌∙◌, inl, inr, List, [], ◌∷◌, none, some, Bool, true, not, ◌||◌,
  length, ◌==◌, In, All, In-All, Bool-cases, Option-cases,
}
use torx.ListAppend.Search.{Kind, Found, read_write}
use torx.ListAppend.Search.Graph.{Walk}
use torx.ListAppend.{Edge, Checker, edges_of}
use torx.ListAppend.Cycles.{
  is_rw, not_rw, within, path, shorter, cycle_from, cycle_within, single_edges, single_from,
  g_single_of,
}
use torx.ListAppend.Cycles.Paths.{path_misses_none, inside-Walk, In-within}

module _ (c : Checker) (comp : List ℕ) (ok : Kind → Bool) where
  cycle_from-some : (vs : List ℕ) (f : Found ℕ) → cycle_from c comp ok vs (some f) ≢ none
  unfolding cycle_from
  cycle_from-some [] f = λ e. cc
  cycle_from-some (v ∷ vs) f = elim (Option-cases (path c comp ok v v)) [
    | inl e ↦ rw (cycle_from, e) (cycle_from-some vs f)
    | inr (g, e) ↦ elim (Bool-cases (shorter g (some f))) [
      | inl s ↦ elim (Bool-cases (length g.0 == 2)) [
        | inl two ↦ rw (cycle_from, e, s, two) (λ z. cc)
        | inr more ↦ rw (cycle_from, e, s, more) (cycle_from-some vs g)
      ]
      | inr s ↦ rw (cycle_from, e, s) (cycle_from-some vs f)
    ]
  ]

  skips :
      (vs : List ℕ) (v : ℕ)
      → path c comp ok v v ≡ none
      → cycle_from c comp ok (v ∷ vs) none ≡ cycle_from c comp ok vs none
  unfolding cycle_from
  skips vs v p = rw (cycle_from, p) refl

  found-some :
      (v : ℕ) (vs : List ℕ) (g : Found ℕ)
      → path c comp ok v v ≡ some g
      → cycle_from c comp ok (v ∷ vs) none ≢ none
  unfolding cycle_from
  found-some v vs g p = elim (Bool-cases (length g.0 == 2)) [
    | inl two ↦ rw (cycle_from, p, two) (λ z. cc)
    | inr more ↦ rw (cycle_from, p, more) (cycle_from-some vs g)
  ]

  cycle_from-none :
      (vs : List ℕ) → cycle_from c comp ok vs none ≡ none → All (λ v. path c comp ok v v ≡ none) vs
  unfolding cycle_from
  cycle_from-none [] e = tt
  cycle_from-none (v ∷ vs) e = elim (Option-cases (path c comp ok v v)) [
    | inl p ↦ (p, cycle_from-none vs (sym (skips vs v p) ∙ e))
    | inr (g, p) ↦ elim (found-some v vs g p e) [ ]
  ]

  -- Where cycleWithin finds none, there is no cycle in the component along edges that it accepts.
  pub cycle_within_misses_none :
      cycle_within c comp ok ≡ none
      → (v : ℕ) (vs : List ℕ) (ks : List Kind) → Walk (edges_of c) v vs ks v
      → All (λ k. ok k ≡ true) ks
      → In v comp
      → All (λ w. In w comp) vs
      → ⊥
  unfolding cycle_within
  cycle_within_misses_none e v vs ks w oks i ins =
      path_misses_none c comp ok v v
        (In-All (λ u. path c comp ok u u ≡ none) comp v (cycle_from-none comp e) i) vs ks
        (inside-Walk c comp ok v vs ks v w oks ins i)

module _ (c : Checker) (comp : List ℕ) where
  -- An edge that gSingle looks at gives nothing only if there is no path back.
  single_edges-cons :
      (a u : ℕ) (es : List Edge)
      → within comp u ≡ true
      → single_edges c comp a ((u, read_write) ∷ es) ≡ none
      → path c comp not_rw u a ≡ none
  unfolding single_edges
  single_edges-cons a u es j = elim (Option-cases (path c comp not_rw u a)) [
    | inl p ↦ λ e. p
    | inr (f, p) ↦ rw (single_edges, j, p) (λ z. cc)
  ]

  single_edges-rest :
      (a u : ℕ) (kind : Kind) (es : List Edge)
      → single_edges c comp a ((u, kind) ∷ es) ≡ none
      → single_edges c comp a es ≡ none
  unfolding single_edges
  single_edges-rest a u kind es = elim (Bool-cases (not (is_rw kind) || not (within comp u))) [
    | inl skip ↦ rw (single_edges, skip) (λ e. e)
    | inr on ↦ elim (Option-cases (path c comp not_rw u a)) [
      | inl p ↦ rw (single_edges, on, p) (λ e. e)
      | inr (f, p) ↦ rw (single_edges, on, p) (λ z. cc)
    ]
  ]

  single_edges_misses_none :
      (a : ℕ) (es : List Edge)
      → single_edges c comp a es ≡ none
      → (to : ℕ) → In (to, read_write) es
      → In to comp
      → path c comp not_rw to a ≡ none
  single_edges_misses_none a [] e to i j = elim i [ ]
  single_edges_misses_none a ((u, kind) ∷ es) e to (inl at) j =
      single_edges-cons a to es (In-within comp to j)
        (subst (λ z. single_edges c comp a (z ∷ es) ≡ none) (sym at) e)
  single_edges_misses_none a ((u, kind) ∷ es) e to (inr i) j =
      single_edges_misses_none a es (single_edges-rest a u kind es e) to i j

  single_from-cons :
      (a : ℕ) (vs : List ℕ)
      → single_from c comp (a ∷ vs) ≡ none
      → (single_edges c comp a (edges_of c a) ≡ none) × (single_from c comp vs ≡ none)
  unfolding single_from
  single_from-cons a vs = elim (Option-cases (single_edges c comp a (edges_of c a))) [
    | inl e ↦ rw (single_from, e) (λ n. (refl, n))
    | inr (f, e) ↦ rw (single_from, e) (λ z. cc)
  ]

  single_from_misses_none :
      (vs : List ℕ)
      → single_from c comp vs ≡ none
      → (a : ℕ) → In a vs
      → single_edges c comp a (edges_of c a) ≡ none
  single_from_misses_none [] e a i = elim i [ ]
  single_from_misses_none (v ∷ vs) e a (inl at) =
      subst (λ z. single_edges c comp z (edges_of c z) ≡ none) (sym at) (single_from-cons v vs e).0
  single_from_misses_none (v ∷ vs) e a (inr i) =
      single_from_misses_none vs (single_from-cons v vs e).1 a i

  -- Where gSingle finds none, no rw edge in the component has a way back without another.
  pub g_single_misses_none :
      g_single_of c comp ≡ none
      → (a to : ℕ) (vs : List ℕ) (ks : List Kind) → In a comp
      → In (to, read_write) (edges_of c a)
      → In to comp
      → Walk (edges_of c) to vs ks a
      → All (λ k. not_rw k ≡ true) ks
      → All (λ w. In w comp) vs
      → ⊥
  unfolding g_single_of
  g_single_misses_none e a to vs ks i edge j w oks ins =
      path_misses_none c comp not_rw to a
        (single_edges_misses_none a (edges_of c a) (single_from_misses_none comp e a i) to edge j)
        vs ks (inside-Walk c comp not_rw to vs ks a w oks ins i)

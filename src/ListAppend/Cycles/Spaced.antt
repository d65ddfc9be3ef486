-- ===== src/ListAppend/Cycles/Spaced.antt =====
-- listappend/listappend.go: what nonadjacent finds.
use torx.Base.{
  ℕ, suc, ◌+◌, ◌≡◌, refl, sym, subst, ap, ◌∙◌, inl, inr, List, [], ◌∷◌, map, Option, none, some,
  Bool, true, false, not, ◌&&◌, length, select, ==_self, In, In-select, In-map, Distinct, arith,
  Option-cases,
}
use torx.ListAppend.Search.{Kind, Found}
use torx.ListAppend.Search.Graph.{Walk}
use torx.ListAppend.Search.Correct.{search-Accepted}
use torx.ListAppend.{Checker, edges_of}
use torx.ListAppend.Cycles.{
  is_rw, within, distinct_from, distinct, Arrival, same_arrival, arrive, arrivals, keeps,
  nonadjacent_from, transactions, nonadjacent_starts, nonadjacent,
}
use torx.ListAppend.Cycles.Paths.{==-eq, In-within}
use torx.ListAppend.Cycles.Sound.{spaced, last_rw, SpacedCycle}

same_arrival-eq : (x y : Arrival) → same_arrival x y ≡ true → x ≡ y
same_arrival-eq (v, true) (w, true) e = ap (λ z. (z, true)) (==-eq v w e)
same_arrival-eq (v, false) (w, false) e = ap (λ z. (z, false)) (==-eq v w e)
same_arrival-eq (v, true) (w, false) e = cc
same_arrival-eq (v, false) (w, true) e = cc

same_arrival_self : (x : Arrival) → same_arrival x x ≡ true
same_arrival_self (v, true) = ==_self v
same_arrival_self (v, false) = ==_self v

-- A step between states is an edge, not an rw edge after one, and says how it arrived.
arrivals-edge :
    (c : Checker) (comp : List ℕ) (v : ℕ) (before : Bool) (d : ℕ) (by_rw : Bool) (k : Kind)
    → In ((d, by_rw), k) (arrivals c comp (v, before))
    → In (d, k) (edges_of c v) × (not (is_rw k && before) ≡ true) × (by_rw ≡ is_rw k)
arrivals-edge c comp v before d by_rw k i =
    let ((to, kind), j, e) =
      In-map arrive (select (λ e. within comp e.0 && not (is_rw e.1 && before)) (edges_of c v))
        ((d, by_rw), k) i in
    let (on, h) =
      In-select (λ e. within comp e.0 && not (is_rw e.1 && before)) (edges_of c v) (to, kind) j in
    let gap : not (is_rw kind && before) ≡ true = ground (arith, h) in
    let same : k ≡ kind = ap (λ z. z.1) e in
    let edge : (d, k) ≡ (to, kind) = ap (λ z. ((z.0).0, z.1)) e in
    let by : by_rw ≡ is_rw kind = ap (λ z. (z.0).1) e in
    (
      subst (λ z. In z (edges_of c v)) (sym edge) on,
      subst (λ z. not (is_rw z && before) ≡ true) (sym same) gap,
      by ∙ ap is_rw (sym same),
    )

arrivals-Walk :
    (c : Checker) (comp : List ℕ) (v : ℕ) (before : Bool) (vs : List Arrival) (ks : List Kind)
    (d : ℕ) (by_rw : Bool)
    → Walk (arrivals c comp) (v, before) vs ks (d, by_rw)
    → Walk (edges_of c) v (map (λ s. s.0) vs) ks d
      × (spaced before ks ≡ true)
      × (last_rw before ks ≡ by_rw)
      × (last_rw false ks ≡ by_rw)
arrivals-Walk c comp v before vs [] d by_rw w = elim w [ ]
arrivals-Walk c comp v before [] (k ∷ ks) d by_rw w =
    let (on, sp, by) = arrivals-edge c comp v before d by_rw k w.0 in
    ((on, w.1), rw (sp, w.1) refl, rw (w.1) (sym by), rw (w.1) (sym by))
arrivals-Walk c comp v before ((u, b) ∷ vs) (k ∷ ks) d by_rw w =
    let (on, sp, by) = arrivals-edge c comp v before u b k w.0 in
    let (walk, sp', l, lf) = arrivals-Walk c comp u b vs ks d by_rw w.1 in
    let l' : last_rw (is_rw k) ks ≡ by_rw = subst (λ z. last_rw z ks ≡ by_rw) by l in
    ((on, walk), rw (sp) (subst (λ z. spaced z ks ≡ true) by sp'), l', l')

distinct_from-Distinct :
    (seen vs : List ℕ)
    → distinct_from seen vs ≡ true
    → Distinct vs × ((v : ℕ) → In v seen → In v vs → ⊥)
unfolding distinct_from
distinct_from-Distinct seen [] h = (tt, λ v i j. j)
distinct_from-Distinct seen (v ∷ vs) h =
    let (ds, away) = distinct_from-Distinct (v ∷ seen) vs (ground (arith, h)) in
    (
      (λ i. away v (inl refl) i, ds),
      λ w i j. elim j [
        | inl e ↦
            let here = In-within seen v (subst (λ z. In z seen) e i) in ground (arith, h, here)
        | inr l ↦ away w (inr i) l
      ],
    )

distinct-Distinct : (vs : List ℕ) → distinct vs ≡ true → Distinct vs
unfolding distinct
distinct-Distinct vs h = (distinct_from-Distinct [] vs h).0

nonadjacent_from-SpacedCycle :
    (c : Checker) (comp : List ℕ) (start : ℕ) (by_rw : Bool) (f : Found Arrival)
    → nonadjacent_from c comp (start, by_rw) ≡ some f
    → SpacedCycle c (transactions f)
unfolding nonadjacent_from
nonadjacent_from-SpacedCycle c comp start by_rw ([], ks) e =
    elim (search-Accepted same_arrival same_arrival-eq same_arrival_self (arrivals c comp) keeps
      (start, by_rw) (suc (length comp + length comp)) (start, by_rw) ([], ks) e).0 [ ]
nonadjacent_from-SpacedCycle c comp start by_rw ((v, b) ∷ vs, ks) e =
    let ((at, w, ds), kept) =
      search-Accepted same_arrival same_arrival-eq same_arrival_self (arrivals c comp) keeps
        (start, by_rw) (suc (length comp + length comp)) (start, by_rw) ((v, b) ∷ vs, ks) e in
    let (walk, sp, l, lf) = arrivals-Walk c comp v b vs ks start by_rw w in
    let here : v ≡ start = ap (λ z. z.0) at in
    let by : b ≡ by_rw = ap (λ z. z.1) at in
    (
      subst (λ z. Walk (edges_of c) v (map (λ s. s.0) vs) ks z) (sym here) walk,
      distinct-Distinct (v ∷ map (λ s. s.0) vs) (ground (arith, kept)),
      ground (arith, kept),
      subst (λ z. spaced z ks ≡ true) (by ∙ sym lf) sp,
    )

abbrev AllSpaced : Checker → Option (Found ℕ) → Type 0
AllSpaced c none = Unit {0}
AllSpaced c (some f) = SpacedCycle c f

nonadjacent_starts-AllSpaced :
    (c : Checker) (comp vs : List ℕ) → AllSpaced c (nonadjacent_starts c comp vs)
unfolding nonadjacent_starts
nonadjacent_starts-AllSpaced c comp [] = tt
nonadjacent_starts-AllSpaced c comp (v ∷ vs) =
    elim (Option-cases (nonadjacent_from c comp (v, false))) [
      | inr (f, e) ↦ rw (nonadjacent_starts, e) (nonadjacent_from-SpacedCycle c comp v false f e)
      | inl e ↦ elim (Option-cases (nonadjacent_from c comp (v, true))) [
        | inr (f, e') ↦
            rw (nonadjacent_starts, e, e') (nonadjacent_from-SpacedCycle c comp v true f e')
        | inl e' ↦ rw (nonadjacent_starts, e, e') (nonadjacent_starts-AllSpaced c comp vs)
      ]
    ]

pub nonadjacent-SpacedCycle :
    (c : Checker) (comp : List ℕ) (f : Found ℕ) → nonadjacent c comp ≡ some f → SpacedCycle c f
unfolding nonadjacent
nonadjacent-SpacedCycle c comp f e =
    subst (AllSpaced c) e (nonadjacent_starts-AllSpaced c comp comp)

-- ===== src/ListAppend/Sccs/Layers.antt =====
-- listappend/listappend.go: components in the order in which sccs closes them. An edge leads within
-- its component or to one that was closed before, so a closed walk lies in one component.
use torx.Base.{
  ℕ, ◌≡◌, refl, sym, ◌∙◌, ◌⊎◌, inl, inr, List, [], ◌∷◌, Bool, true, length, In, All, arith, ltb,
  Bool-cases,
}
use torx.Base.Sort.{insert_sorted, sort_stable}
use torx.ListAppend.Search.{Kind}
use torx.ListAppend.Search.Graph.{Walk}
use torx.ListAppend.{Edge}

-- In one of the components.
abbrev pub Among : ℕ → List (List ℕ) → Type 0
Among x [] = ⊥
Among x (comp ∷ comps) = In x comp ⊎ Among x comps

module _ (adj : ℕ → List Edge) (ok : Kind → Bool) where
  -- The last closed first.
  abbrev pub Layers : List (List ℕ) → Type 0
  Layers [] = Unit {0}
  Layers (comp ∷ comps) =
      ((x y : ℕ) (k : Kind)
        → In x comp
        → In (y, k) (adj x)
        → ok k ≡ true
        → In y comp ⊎ Among y comps)
      × Layers comps

  Layers-step :
      (comps : List (List ℕ)) (x y : ℕ) (k : Kind)
      → Layers comps
      → Among x comps
      → In (y, k) (adj x)
      → ok k ≡ true
      → Among y comps
  Layers-step [] x y k h i e o = i
  Layers-step (comp ∷ comps) x y k h (inl i) e o = h.0 x y k i e o
  Layers-step (comp ∷ comps) x y k h (inr i) e o = inr (Layers-step comps x y k h.1 i e o)

  Layers-Walk :
      (comps : List (List ℕ)) (x : ℕ) (vs : List ℕ) (ks : List Kind) (d : ℕ)
      → Layers comps
      → Among x comps
      → Walk adj x vs ks d
      → All (λ k. ok k ≡ true) ks
      → Among d comps
  Layers-Walk comps x vs [] d h i w o = elim w [ ]
  Layers-Walk comps x [] (k ∷ ks) d h i w o = Layers-step comps x d k h i w.0 o.0
  Layers-Walk comps x (u ∷ vs) (k ∷ ks) d h i w o =
      Layers-Walk comps u vs ks d h (Layers-step comps x u k h i w.0 o.0) w.1 o.1

  -- A walk from the last component stays in it, or ends in one before.
  stays :
      (comp : List ℕ) (comps : List (List ℕ)) (x : ℕ) (vs : List ℕ) (ks : List Kind) (d : ℕ)
      → Layers (comp ∷ comps)
      → In x comp
      → Walk adj x vs ks d
      → All (λ k. ok k ≡ true) ks
      → All (λ v. In v comp) vs ⊎ Among d comps
  stays comp comps x vs [] d h i w o = elim w [ ]
  stays comp comps x [] (k ∷ ks) d h i w o = inl tt
  stays comp comps x (u ∷ vs) (k ∷ ks) d h i w o = elim (h.0 x u k i w.0 o.0) [
    | inl j ↦ elim (stays comp comps u vs ks d h j w.1 o.1) [
      | inl all ↦ inl (j, all)
      | inr there ↦ inr there
    ]
    | inr j ↦ inr (Layers-Walk comps u vs ks d h.1 j w.1 o.1)
  ]

  pub closed-Walk :
      (comps : List (List ℕ)) (v : ℕ) (vs : List ℕ) (ks : List Kind)
      → Layers comps
      → Among v comps
      → Walk adj v vs ks v
      → All (λ k. ok k ≡ true) ks
      → (comp : List ℕ) × In comp comps × In v comp × All (λ w. In w comp) vs
  closed-Walk [] v vs ks h i w o = elim i [ ]
  closed-Walk (comp ∷ comps) v vs ks h (inl i) w o = elim (stays comp comps v vs ks v h i w o) [
    | inl all ↦ (comp, inl refl, i, all)
    | inr j ↦ let (d, l, k, all) = closed-Walk comps v vs ks h.1 j w o in (d, inr l, k, all)
  ]
  closed-Walk (comp ∷ comps) v vs ks h (inr j) w o =
      let (d, l, k, all) = closed-Walk comps v vs ks h.1 j w o in (d, inr l, k, all)

In-insert : (x y : ℕ) (ys : List ℕ) → (x ≡ y) ⊎ In x ys → In x (insert_sorted ltb y ys)
unfolding insert_sorted
In-insert x y [] i = i
In-insert x y (z ∷ ys) i = elim (Bool-cases (ltb z y)) [
  | inr e ↦ rw (e) i
  | inl e ↦ rw (e) (elim i [
    | inl at ↦ inr (In-insert x y ys (inl at))
    | inr (inl at) ↦ inl at
    | inr (inr j) ↦ inr (In-insert x y ys (inr j))
  ])
]

pub In-sort : (x : ℕ) (ys : List ℕ) → In x ys → In x (sort_stable ltb ys)
unfolding sort_stable
In-sort x [] i = i
In-sort x (y ∷ ys) (inl e) = In-insert x y (sort_stable ltb ys) (inl e)
In-sort x (y ∷ ys) (inr i) = In-insert x y (sort_stable ltb ys) (inr (In-sort x ys i))

pub two_of : (xs : List ℕ) (x y : ℕ) → In x xs → In y xs → (x ≡ y → ⊥) → ltb 1 (length xs) ≡ true
two_of [] x y i j d = elim i [ ]
two_of (z ∷ []) x y (inl a) (inl b) d = elim (d (a ∙ sym b)) [ ]
two_of (z ∷ []) x y (inl a) (inr j) d = elim j [ ]
two_of (z ∷ []) x y (inr i) j d = elim i [ ]
two_of (z ∷ w ∷ xs) x y i j d = ground arith

-- ===== src/ListAppend/Search/Walks.antt =====
-- listappend/listappend.go: the walk back of path and of nonadjacent. What the search has seen is a
-- tree whose root is the source, so the walk back ends there, and visits no vertex twice.
use torx.Base.{
  ℕ, zero, suc, ◌≡◌, refl, sym, subst, ◌∙◌, ◌≤◌, inl, inr, List, [], ◌∷◌, Option, none, some, Bool,
  true, false, length, In, Distinct, arith, Bool-cases,
}
use torx.ListAppend.Search.{Kind, Found, Seen, has, hop_of, walk_back}
use torx.ListAppend.Search.Graph.{Walk, IsWalk}

module _ {A : Type 0} (same : A → A → Bool) (same-eq : (x y : A) → same x y ≡ true → x ≡ y)
    (same-self : (x : A) → same x x ≡ true) (next : A → List (A × Kind)) where
  abbrev pub Tree : A → Seen A → Type 0
  Tree src [] = ⊥
  Tree src ((v, none) ∷ []) = v ≡ src
  Tree src ((v, none) ∷ (w ∷ seen)) = ⊥
  Tree src ((v, some (p, k)) ∷ seen) =
      In (v, k) (next p) × (has same seen p ≡ true) × (has same seen v ≡ false) × Tree src seen

  -- A vertex that is seen below the latest is another than the latest.
  has-other :
      (v y : A) (seen : Seen A)
      → has same seen v ≡ false
      → has same seen y ≡ true
      → same v y ≡ false
  has-other v y seen fresh h = elim (Bool-cases (same v y)) [
    | inl e ↦ ground (arith, subst (λ z. has same seen z ≡ true) (sym (same-eq v y e)) h)
    | inr e ↦ e
  ]

  seen_not_fresh : (y : A) (seen : Seen A) → has same seen y ≡ true → has same seen y ≡ false → ⊥
  seen_not_fresh y seen h e = cc

  pub climb :
      (src d : A) (hop : A → Option (A × Kind)) (seen : Seen A)
      → ((y : A) → has same seen y ≡ true → hop y ≡ hop_of same seen y)
      → Tree src seen
      → (x : A) → has same seen x ≡ true
      → (fuel : ℕ) → length seen ≤ fuel
      → (vs : List A) (ks : List Kind) → Walk next x vs ks d
      → Distinct (x ∷ vs)
      → ((y : A) → In y vs → has same seen y ≡ false)
      → (f : Found A) × (walk_back fuel hop x vs ks ≡ some f) × IsWalk next src d f
  unfolding walk_back
  climb src d hop [] agree t x h fuel le vs ks w ds away = elim t [ ]
  climb src d hop (e ∷ seen) agree t x h zero le vs ks w ds away = elim le [ ]
  climb src d hop ((v, none) ∷ []) agree t x h (suc fuel) le vs ks w ds away =
      let at = same-eq v x (ground (arith, h)) in
      (
        (x ∷ vs, ks),
        rw (walk_back, agree x h, subst (λ z. same z x ≡ true) (sym at) (same-self x)) refl,
        (sym at ∙ t, w, ds),
      )
  climb src d hop ((v, none) ∷ (u ∷ seen)) agree t x h (suc fuel) le vs ks w ds away = elim t [ ]
  climb src d hop ((v, some (p, k)) ∷ seen) agree t x h (suc fuel) le vs ks w ds away =
      let agree' : (y : A) → has same seen y ≡ true → hop y ≡ hop_of same seen y =
        (λ y hy. agree y (ground (arith, hy)) ∙ rw (has-other v y seen t.2 hy) refl) in
      let away' : (y : A) → In y vs → has same seen y ≡ false = (λ y i. ground (arith, away y i)) in
      elim (Bool-cases (same v x)) [
        | inl e ↦
            let at = same-eq v x e in
            let fresh = subst (λ z. has same seen z ≡ false) at t.2 in
            let (f, back, ok) =
              climb src d hop seen agree' t.3 p t.1 fuel (omega arith) (x ∷ vs) (k ∷ ks)
                (subst (λ z. In (z, k) (next p)) at t.0, w)
                (
                  (λ i. seen_not_fresh p seen t.1 (elim i [
                    | inl q ↦ subst (λ z. has same seen z ≡ false) (sym q) fresh
                    | inr j ↦ away' p j
                  ])),
                  ds,
                )
                (λ y i. elim i [
                  | inl q ↦ subst (λ z. has same seen z ≡ false) (sym q) fresh
                  | inr j ↦ away' y j
                ]) in
            (f, rw (walk_back, agree x h, e) back, ok)
        | inr e ↦
            climb src d hop seen agree' t.3 x (ground (arith, h)) (suc fuel) (omega arith) vs ks w
              ds away'
      ]

-- ===== src/ListAppend/Sccs/Closing.antt =====
-- listappend/listappend.go: the end of a call in Tarjan's loop keeps the invariant.
use torx.Base.{
  ℕ, ◌≡◌, ◌≤◌, ◌<◌, refl, sym, subst, ap, ◌∙◌, inl, inr, List, [], ◌∷◌, ◌++◌, none, Bool, true,
  false, length, get_elem?, In, In-right, In-split, All-append, In-All, All-of_In, arith, ◌==◌,
  ==_self, Bool-cases, append_assoc,
}
use torx.ListAppend.Search.{Kind}
use torx.ListAppend.{Edge}
use torx.ListAppend.Sccs.{Tarjan, index_of, low_of, lower, pop, is_index, close}
use torx.ListAppend.Sccs.Calls.{Numbered, Cut, Stacked, Later, Stacked-Later}
use torx.ListAppend.Sccs.Visits.{Sound}
use torx.ListAppend.Sccs.Rounds.{
  Kept, lower-Sound, lower-Later, low_of-lower, Numbered-lt, same_number,
}
use torx.ListAppend.Sccs.Taken.{all_land, popped, taken-Sound, taken-Stacked}

module _ (adj : ℕ → List Edge) (ok : Kind → Bool) (n base : ℕ) where
  -- The call of a vertex that ends joins what is above the vertex to what is above the caller.
  merged :
      (s t : Tarjan) (comps : List (List ℕ)) (v e p e' : ℕ) (st : List ℕ)
      → Later adj ok n base s t
      → (c : Cut adj ok n base s comps v e st) → (d : Cut adj ok n base t comps p e' c.rest)
      → get_elem? (adj v) e ≡ none
      → low_of t p ≤ low_of s v
      → Cut adj ok n base t comps p e' st
  merged s t comps v e p e' st later c d done le =
      let inside = subst (In p) (sym d.cut) (In-right p d.above (p ∷ d.rest) (inl refl)) in
      let (j, at, lt) =
        In-All (λ x. (j : ℕ) × Numbered s x j × (j < c.i)) c.rest p c.lesser inside in
      let same = same_number adj ok n base t p j d.i (later.number p j at) d.numbered in
      record {
        above = (c.above ++ v ∷ []) ++ d.above;
        rest = d.rest;
        i = d.i;
        cut =
            c.cut
            ∙ ap (λ z. c.above ++ v ∷ z) d.cut
            ∙ sym (append_assoc c.above (v ∷ []) (d.above ++ p ∷ d.rest))
            ∙ sym (append_assoc (c.above ++ v ∷ []) d.above (p ∷ d.rest));
        numbered = d.numbered;
        low_le = d.low_le;
        base_le = d.base_le;
        higher =
            All-append (λ x. (k : ℕ) × Numbered t x k × (d.i < k)) (c.above ++ v ∷ []) d.above
              (All-append (λ x. (k : ℕ) × Numbered t x k × (d.i < k)) c.above (v ∷ [])
                (All-of_In (λ x. (k : ℕ) × Numbered t x k × (d.i < k)) c.above
                  (λ x i.
                    let (k, a, b) =
                      In-All (λ x. (k : ℕ) × Numbered s x k × (c.i < k)) c.above x c.higher i in
                    (k, later.number x k a, omega (arith, same, lt, b))))
                ((c.i, later.number v c.i c.numbered, omega (arith, same, lt)), tt))
              d.higher;
        lesser = d.lesser;
        bottom = d.bottom;
        lands = λ x y k i edge o. elim (In-split x (c.above ++ v ∷ []) d.above i) [
          | inl a ↦ elim (all_land adj ok n base s comps v e st c done x y k a edge o) [
            | inl there ↦ inl there
            | inr (m, b, l) ↦ inr (m, later.number y m b, omega (arith, l, le))
          ]
          | inr a ↦ d.lands x y k a edge o
        ];
        looked = d.looked;
      }

  abbrev pub Closes : Tarjan → Type 0
  Closes t = (more : List (List ℕ)) × Kept adj ok n base t more

  close_taken :
      (t : Tarjan) (comps : List (List ℕ)) (v e i : ℕ)
      → Sound adj ok n base t comps
      → Stacked adj ok n base t comps ((v, e) ∷ t.call) t.st
      → get_elem? (adj v) e ≡ none
      → Numbered t v i
      → low_of t v ≡ i
      → Closes (close adj ok v t)
  unfolding close
  close_taken t comps v e i inv (c, h) done at first =
      let first' = first ∙ same_number adj ok n base t v i c.i at c.numbered in
      let p = popped adj ok n base t comps v e c in
      let test : is_index (index_of t v) (low_of t v) ≡ true =
        rw (is_index, at, first) (==_self i) in
      rw (close, test)
        (
          (c.above ++ v ∷ []) ∷ comps,
          (
            taken-Sound adj ok n base t comps v e inv c done first' (pop v t.st t.on) p,
            taken-Stacked adj ok n base t comps v e t.call c h (pop v t.st t.on) p,
          ),
        )

  -- A call of the loop that ends at its root.
  pub end_root :
      (s : Tarjan) (comps : List (List ℕ)) (v e : ℕ)
      → Sound adj ok n base s comps
      → Stacked adj ok n base s comps ((v, e) ∷ []) s.st
      → s.call ≡ []
      → get_elem? (adj v) e ≡ none
      → Closes (close adj ok v s)
  end_root s comps v e inv (c, h) none_left done =
      let low : low_of s v ≡ c.i =
        (let at = c.bottom h in omega (arith, at, c.low_le, c.base_le)) in
      close_taken s comps v e c.i inv
        (subst (λ z. Stacked adj ok n base s comps ((v, e) ∷ z) s.st) (sym none_left) (c, h)) done
        c.numbered low

  pub end_caller :
      (s : Tarjan) (comps : List (List ℕ)) (v e p e' : ℕ) (frames : List (ℕ × ℕ))
      → Sound adj ok n base s comps
      → Stacked adj ok n base s comps ((v, e) ∷ (p, e') ∷ frames) s.st
      → s.call ≡ (p, e') ∷ frames
      → get_elem? (adj v) e ≡ none
      → Closes (close adj ok v (lower p (low_of s v) s))
  unfolding close merged
  end_caller s comps v e p e' frames inv (c, (d, h)) called done =
      let lt : p < length s.low =
        (let b = Numbered-lt adj ok n base s p d.i inv.index_size d.numbered in
          omega (arith, b, inv.low_size)) in
      let later = lower-Later adj ok n base p (low_of s v) s lt c.base_le in
      let t : Tarjan = lower p (low_of s v) s in
      let inv' = lower-Sound adj ok n base p (low_of s v) s comps inv in
      elim (Bool-cases (low_of t v == c.i)) [
        | inl e₁ ↦
            close_taken t comps v e c.i inv'
              (subst (λ z. Stacked adj ok n base t comps ((v, e) ∷ z) s.st) (sym called)
                (Stacked-Later adj ok n base s t comps comps ((v, e) ∷ (p, e') ∷ frames) s.st later
                  (λ x i. i) (c, (d, h))))
              done c.numbered (eq_of (low_of t v) c.i e₁)
        | inr e₁ ↦
            let (d', h') =
              Stacked-Later adj ok n base s t comps comps ((p, e') ∷ frames) c.rest later (λ x i. i)
                (d, h) in
            let low = low_of-lower adj ok n base p (low_of s v) s lt in
            let test : is_index (index_of t v) (low_of t v) ≡ false =
              rw (is_index, c.numbered) e₁ in
            rw (close, test)
              (
                comps,
                (
                  inv',
                  subst (λ z. Stacked adj ok n base t comps z s.st) (sym called)
                      (merged s t comps v e p e' s.st later c d' done (omega (arith, low)), h'),
                ),
              )
      ]
    where
      eq_of : (x y : ℕ) → (x == y) ≡ true → x ≡ y
      eq_of x y e = ground (arith, e)

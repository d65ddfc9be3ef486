-- ===== src/ListAppend/Sccs/Rounds.antt =====
-- listappend/listappend.go: following an edge in Tarjan's loop keeps its invariant.
use mathlib.Core.Option.{none-ne-some, some-injective}
use torx.Base.{
  ℕ, suc, ◌≡◌, ◌≤◌, ◌<◌, refl, sym, subst, ap, ◌∙◌, inl, inr, List, ◌∷◌, none, some, Bool, true,
  false, length, get_elem?, In, In-right, arith, Bool-cases, Option-cases, length-set,
  get_elem?-set, get_elem?-set_other, get_elem?-lt, min,
}
use torx.ListAppend.Search.{Kind}
use torx.ListAppend.{Edge}
use torx.ListAppend.Sccs.{Tarjan, index_of, low_of, is_on, lower, visit, follow}
use torx.ListAppend.Sccs.Calls.{
  Numbered, Lands, Cut, Stacked, Later, Stacked-Later, Stacked-Numbered,
}
use torx.ListAppend.Sccs.Visits.{
  Sound, equal_or_not, index_of-visit, low_of-visit_other, unnumbered, visit-Sound, visit-Stacked,
}

module _ (adj : ℕ → List Edge) (ok : Kind → Bool) (n base : ℕ) where
  -- A low is lowered, to a number from that of the root on.
  pub low_of-lower :
      (v l : ℕ) (s : Tarjan) → v < length s.low → low_of (lower v l s) v ≡ min (low_of s v) l
  low_of-lower v l s h = rw (low_of, get_elem?-set s.low v (min (low_of s v) l) h) refl

  low_of-lower_other : (v l y : ℕ) (s : Tarjan) → (y ≡ v → ⊥) → low_of (lower v l s) y ≡ low_of s y
  low_of-lower_other v l y s d =
      rw (low_of, get_elem?-set_other s.low v y (min (low_of s v) l) d) refl

  pub lower-Later :
      (v l : ℕ) (s : Tarjan) → v < length s.low → base ≤ l → Later adj ok n base s (lower v l s)
  lower-Later v l s lt le = record {
    number = λ y i at. at;
    lows = λ y i at. elim (equal_or_not adj ok n base y v) [
      | inl e ↦
          subst (λ z. low_of (lower v l s) z ≤ low_of s z) (sym e)
            (omega (arith, low_of-lower v l s lt))
      | inr d ↦ omega (arith, low_of-lower_other v l y s d)
    ];
    based = λ y i at h. elim (equal_or_not adj ok n base y v) [
      | inl e ↦
          subst (λ z. base ≤ low_of (lower v l s) z) (sym e)
            (let h' = subst (λ z. base ≤ low_of s z) e h in
              omega (arith, low_of-lower v l s lt, h', le))
      | inr d ↦ omega (arith, low_of-lower_other v l y s d, h)
    ];
  }

  -- The lows, the calls and what was reported have no part in `Sound adj ok n base` but by their sizes.
  pub lower-Sound :
      (v l : ℕ) (s : Tarjan) (comps : List (List ℕ))
      → Sound adj ok n base s comps
      → Sound adj ok n base (lower v l s) comps
  lower-Sound v l s comps inv = record {
    index_size = inv.index_size;
    low_size = length-set s.low v (min (low_of s v) l) ∙ inv.low_size;
    on_size = inv.on_size;
    below = inv.below;
    held = inv.held;
    on_stack = inv.on_stack;
    layers = inv.layers;
    out_has = inv.out_has;
  }

  pub Sound-call :
      (s : Tarjan) (frames : List (ℕ × ℕ)) (comps : List (List ℕ))
      → Sound adj ok n base s comps
      → Sound adj ok n base (record s { call = frames }) comps
  Sound-call s frames comps inv = record {
    index_size = inv.index_size;
    low_size = inv.low_size;
    on_size = inv.on_size;
    below = inv.below;
    held = inv.held;
    on_stack = inv.on_stack;
    layers = inv.layers;
    out_has = inv.out_has;
  }

  pub Numbered-lt : (s : Tarjan) (y i : ℕ) → length s.index ≡ n → Numbered s y i → y < n
  Numbered-lt s y i size at = elim (Option-cases (get_elem? s.index y)) [
    | inl e ↦
        let gone : Numbered s y i → ⊥ = rw (index_of, e) (none-ne-some i) in elim (gone at) [ ]
    | inr (o, e) ↦ omega (arith, get_elem?-lt s.index y e, size)
  ]

  -- The next edge of a call has been looked at.
  next_look :
      (s : Tarjan) (comps : List (List ℕ)) (v e w : ℕ) (k : Kind) (st : List ℕ)
      → get_elem? (adj v) e ≡ some (w, k)
      → (ok k ≡ true → Lands adj ok n base s comps (low_of s v) w)
      → Cut adj ok n base s comps v e st
      → Cut adj ok n base s comps v (suc e) st
  next_look s comps v e w k st at here c = record {
    above = c.above;
    rest = c.rest;
    i = c.i;
    cut = c.cut;
    numbered = c.numbered;
    low_le = c.low_le;
    base_le = c.base_le;
    higher = c.higher;
    lesser = c.lesser;
    bottom = c.bottom;
    lands = c.lands;
    looked = λ p y j lt edge o. elim (equal_or_not adj ok n base p e) [
      | inl q ↦
          let same =
            some-injective (w, k) (y, j)
              (sym at ∙ subst (λ z. get_elem? (adj v) z ≡ some (y, j)) q edge) in
          subst (λ z. Lands adj ok n base s comps (low_of s v) z) (ap (λ z. z.0) same)
            (here (subst (λ z. ok z ≡ true) (ap (λ z. z.1) (sym same)) o))
      | inr d ↦ c.looked p y j (omega arith) edge o
    ];
  }

  -- The invariant of the loop over the calls.
  abbrev pub Kept : Tarjan → List (List ℕ) → Type 0
  Kept s comps = Sound adj ok n base s comps × Stacked adj ok n base s comps s.call s.st

  look-Stacked :
      (s : Tarjan) (comps : List (List ℕ)) (v e w : ℕ) (k : Kind) (frames : List (ℕ × ℕ))
      (st : List ℕ)
      → get_elem? (adj v) e ≡ some (w, k)
      → (ok k ≡ true → Lands adj ok n base s comps (low_of s v) w)
      → Stacked adj ok n base s comps ((v, e) ∷ frames) st
      → Stacked adj ok n base s comps ((v, suc e) ∷ frames) st
  unfolding next_look
  look-Stacked s comps v e w k frames st at here (c, h) =
      (next_look s comps v e w k st at here c, h)

  pub call-Later :
      (s : Tarjan) (frames : List (ℕ × ℕ)) → Later adj ok n base s (record s { call = frames })
  call-Later s frames = record {
    number = λ y i at. at;
    lows = λ y i at. omega arith;
    based = λ y i at h. h;
  }

  pub same_number : (s : Tarjan) (y i j : ℕ) → Numbered s y i → Numbered s y j → i ≡ j
  same_number s y i j a b = some-injective i j (sym a ∙ b)

  pub true_not_false : (b : Bool) → b ≡ true → b ≡ false → ⊥
  true_not_false b h e = cc

  follow_visit :
      (s : Tarjan) (comps : List (List ℕ)) (v e w : ℕ) (k : Kind) (frames : List (ℕ × ℕ))
      → Sound adj ok n base s comps
      → Stacked adj ok n base s comps ((v, e) ∷ frames) s.st
      → get_elem? (adj v) e ≡ some (w, k)
      → w < n
      → index_of s w ≡ none
      → Stacked adj ok n base (visit w s) comps ((w, 0) ∷ (v, suc e) ∷ frames) (w ∷ s.st)
  follow_visit s comps v e w k frames inv (c, h) at lt free =
      let inside = subst (In v) (sym c.cut) (In-right v c.above (v ∷ c.rest) (inl refl)) in
      let newer = inv.below v c.i c.numbered in
      let low =
        low_of-visit_other adj ok n base w v s
          (unnumbered adj ok n base s w v c.i free c.numbered) in
      let (cw, later) =
        visit-Stacked adj ok n base w s comps ((v, e) ∷ frames) inv (c, h) lt free
          (omega (arith, c.base_le, c.low_le, newer)) (λ nil. elim (subst (In v) nil inside) [ ]) in
      (
        cw,
        look-Stacked (visit w s) comps v e w k frames cw.rest at
            (λ o. inr (
              s.next,
              index_of-visit adj ok n base w s (omega (arith, inv.index_size, lt)),
              omega (arith, low, c.low_le, newer),
            ))
            later,
      )

  follow_lower :
      (s : Tarjan) (comps : List (List ℕ)) (v e w i : ℕ) (k : Kind) (frames : List (ℕ × ℕ))
      → Sound adj ok n base s comps
      → Stacked adj ok n base s comps ((v, e) ∷ frames) s.st
      → get_elem? (adj v) e ≡ some (w, k)
      → Numbered s w i
      → is_on s w ≡ true
      → Stacked adj ok n base (lower v i s) comps ((v, suc e) ∷ frames) s.st
  follow_lower s comps v e w i k frames inv (c, h) at old on =
      let from : base ≤ i = elim (inv.held w i old) [
        | inl here ↦
            let (j, b, le) =
              Stacked-Numbered adj ok n base s comps ((v, e) ∷ frames) s.st (c, h) w here.0 in
            let same = same_number s w i j old b in omega (arith, same, le)
        | inr gone ↦ elim (true_not_false (is_on s w) on gone.1) [ ]
      ] in
      let lt : v < length s.low =
        (let b = Numbered-lt s v c.i inv.index_size c.numbered in omega (arith, b, inv.low_size)) in
      let low = low_of-lower v i s lt in
      look-Stacked (lower v i s) comps v e w k frames s.st at
        (λ o. inr (i, old, omega (arith, low)))
        (Stacked-Later adj ok n base s (lower v i s) comps comps ((v, e) ∷ frames) s.st
          (lower-Later v i s lt from) (λ x j. j) (c, h))

  pub follow-Kept :
      (s : Tarjan) (comps : List (List ℕ)) (v e w : ℕ) (k : Kind) (frames : List (ℕ × ℕ))
      → w < n
      → Sound adj ok n base s comps
      → Stacked adj ok n base s comps ((v, e) ∷ frames) s.st
      → get_elem? (adj v) e ≡ some (w, k)
      → Kept (follow adj ok v (w, k) (record s { call = (v, suc e) ∷ frames })) comps
  unfolding follow
  follow-Kept s comps v e w k frames lt inv₀ h₀ at =
      let s' : Tarjan = record s { call = (v, suc e) ∷ frames } in
      let inv = Sound-call s ((v, suc e) ∷ frames) comps inv₀ in
      let h : Stacked adj ok n base s' comps ((v, e) ∷ frames) s.st =
        Stacked-Later adj ok n base s s' comps comps ((v, e) ∷ frames) s.st
          (call-Later s ((v, suc e) ∷ frames)) (λ x i. i) h₀ in
      elim (Bool-cases (ok k)) [
        | inr skip ↦
            rw (follow, skip)
              (
                inv,
                look-Stacked s' comps v e w k frames s.st at
                    (λ o. elim (true_not_false (ok k) o skip) [ ]) h,
              )
        | inl on ↦ elim (Option-cases (index_of s w)) [
          | inl free ↦
              rw (follow, on, free)
                (
                  visit-Sound adj ok n base w s' comps inv lt free,
                  follow_visit s' comps v e w k frames inv h at lt free,
                )
          | inr (i, old) ↦ elim (Bool-cases (is_on s w)) [
            | inl held ↦
                rw (follow, on, old, held)
                  (
                    lower-Sound v i s' comps inv,
                    follow_lower s' comps v e w i k frames inv h at old held,
                  )
            | inr gone ↦
                rw (follow, on, old, gone)
                  (
                    inv,
                    look-Stacked s' comps v e w k frames s.st at
                        (λ o. elim (inv.held w i old) [
                          | inl here ↦ elim (true_not_false (is_on s w) here.1 gone) [ ]
                          | inr there ↦ inl there.0
                        ])
                        h,
                  )
          ]
        ]
      ]

-- ===== src/ListAppend/Sccs/Calls.antt =====
-- listappend/listappend.go: the invariant of Tarjan's loop. The stack is cut at the vertices whose
-- calls go on; the edges of what lies above such a vertex lead to vertices that were closed, or
-- that were numbered no lower than its `low`.
use torx.Base.{
  ℕ, ◌≡◌, ◌≤◌, ◌<◌, subst, ◌⊎◌, inl, inr, List, [], ◌∷◌, ◌++◌, some, Bool, true, get_elem?, In, All,
  All-append, In-All, All-of_In, arith,
}
use torx.ListAppend.Search.{Kind}
use torx.ListAppend.{Edge}
use torx.ListAppend.Sccs.{Tarjan, index_of, low_of}
use torx.ListAppend.Sccs.Layers.{Among}

-- A vertex with its number.
abbrev pub Numbered : Tarjan → ℕ → ℕ → Type 0
Numbered s y i = index_of s y ≡ some i

module _ (adj : ℕ → List Edge) (ok : Kind → Bool) (n base : ℕ) where
  abbrev pub Lands : Tarjan → List (List ℕ) → ℕ → ℕ → Type 0
  Lands s comps l y = Among y comps ⊎ ((j : ℕ) × Numbered s y j × (l ≤ j))

  -- What a vertex `v` of the calls, of number `i`, has above it on the stack and below.
  pub record Cut (s : Tarjan) (comps : List (List ℕ)) (v e : ℕ) (st : List ℕ) : Type 0 where
    pub above : List ℕ
    pub rest : List ℕ
    pub i : ℕ
    pub cut : st ≡ above ++ v ∷ rest
    pub numbered : Numbered s v i
    pub low_le : low_of s v ≤ i
    pub base_le : base ≤ low_of s v
    pub higher : All (λ x. (j : ℕ) × Numbered s x j × (i < j)) above
    pub lesser : All (λ x. (j : ℕ) × Numbered s x j × (j < i)) rest
    pub bottom : rest ≡ [] → i ≡ base
    pub lands :
        (x y : ℕ) (k : Kind)
        → In x above
        → In (y, k) (adj x)
        → ok k ≡ true
        → Lands s comps (low_of s v) y
    pub looked :
        (p y : ℕ) (k : Kind)
        → p < e
        → get_elem? (adj v) p ≡ some (y, k)
        → ok k ≡ true
        → Lands s comps (low_of s v) y

  abbrev pub Stacked : Tarjan → List (List ℕ) → List (ℕ × ℕ) → List ℕ → Type 0
  Stacked s comps [] st = st ≡ []
  Stacked s comps ((v, e) ∷ frames) st = (c : Cut s comps v e st) × Stacked s comps frames c.rest

  -- The numbers of a later state are those of an earlier one, and the lows are no higher.
  pub record Later (s t : Tarjan) : Type 0 where
    pub number : (y i : ℕ) → Numbered s y i → Numbered t y i
    pub lows : (y i : ℕ) → Numbered s y i → low_of t y ≤ low_of s y
    pub based : (y i : ℕ) → Numbered s y i → base ≤ low_of s y → base ≤ low_of t y

  Lands-Later :
      (s t : Tarjan) (comps more : List (List ℕ)) (l m y : ℕ)
      → Later s t
      → ((x : ℕ) → Among x comps → Among x more)
      → m ≤ l
      → Lands s comps l y
      → Lands t more m y
  Lands-Later s t comps more l m y later grow le (inl i) = inl (grow y i)
  Lands-Later s t comps more l m y later grow le (inr (j, at, h)) =
      inr (j, later.number y j at, omega arith)

  All-mono : (P Q : ℕ → Type 0) (xs : List ℕ) → ((x : ℕ) → P x → Q x) → All P xs → All Q xs
  All-mono P Q [] f h = tt
  All-mono P Q (x ∷ xs) f h = (f x h.0, All-mono P Q xs f h.1)

  later_cut :
      (s t : Tarjan) (comps more : List (List ℕ)) (v e : ℕ) (st : List ℕ)
      → Later s t
      → ((x : ℕ) → Among x comps → Among x more)
      → (c : Cut s comps v e st) → Cut t more v e st
  later_cut s t comps more v e st later grow c =
      let low = later.lows v c.i c.numbered in
      record {
        above = c.above;
        rest = c.rest;
        i = c.i;
        cut = c.cut;
        numbered = later.number v c.i c.numbered;
        low_le = omega (arith, low, c.low_le);
        base_le = later.based v c.i c.numbered c.base_le;
        higher =
            All-mono (λ x. (j : ℕ) × Numbered s x j × (c.i < j))
              (λ x. (j : ℕ) × Numbered t x j × (c.i < j)) c.above
              (λ x h. (h.0, later.number x h.0 h.1, h.2)) c.higher;
        lesser =
            All-mono (λ x. (j : ℕ) × Numbered s x j × (j < c.i))
              (λ x. (j : ℕ) × Numbered t x j × (j < c.i)) c.rest
              (λ x h. (h.0, later.number x h.0 h.1, h.2)) c.lesser;
        bottom = c.bottom;
        lands = λ x y k i edge o.
            Lands-Later s t comps more (low_of s v) (low_of t v) y later grow low
              (c.lands x y k i edge o);
        looked = λ p y k lt edge o.
            Lands-Later s t comps more (low_of s v) (low_of t v) y later grow low
              (c.looked p y k lt edge o);
      }

  pub Stacked-Later :
      (s t : Tarjan) (comps more : List (List ℕ)) (frames : List (ℕ × ℕ)) (st : List ℕ)
      → Later s t
      → ((x : ℕ) → Among x comps → Among x more)
      → Stacked s comps frames st
      → Stacked t more frames st
  unfolding later_cut
  Stacked-Later s t comps more [] st later grow h = h
  Stacked-Later s t comps more ((v, e) ∷ frames) st later grow (c, h) = (
    later_cut s t comps more v e st later grow c,
    Stacked-Later s t comps more frames c.rest later grow h,
  )

  -- Everything on the stack has a number, from that of the root on.
  pub Stacked-Numbered :
      (s : Tarjan) (comps : List (List ℕ)) (frames : List (ℕ × ℕ)) (st : List ℕ)
      → Stacked s comps frames st
      → (x : ℕ) → In x st
      → (j : ℕ) × Numbered s x j × (base ≤ j)
  Stacked-Numbered s comps [] st h x i = elim (subst (In x) h i) [ ]
  Stacked-Numbered s comps ((v, e) ∷ frames) st (c, h) x i =
      In-All (λ y. (j : ℕ) × Numbered s y j × (base ≤ j)) (c.above ++ v ∷ c.rest) x
        (All-append (λ y. (j : ℕ) × Numbered s y j × (base ≤ j)) c.above (v ∷ c.rest)
          (All-mono (λ y. (j : ℕ) × Numbered s y j × (c.i < j))
            (λ y. (j : ℕ) × Numbered s y j × (base ≤ j)) c.above
            (λ y p. (p.0, p.1, omega (arith, p.2, c.low_le, c.base_le))) c.higher)
          (
            (c.i, c.numbered, omega (arith, c.low_le, c.base_le)),
            All-of_In (λ y. (j : ℕ) × Numbered s y j × (base ≤ j)) c.rest
                (λ y j. Stacked-Numbered s comps frames c.rest h y j),
          ))
        (subst (In x) c.cut i)

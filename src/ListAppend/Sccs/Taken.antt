-- ===== src/ListAppend/Sccs/Taken.antt =====
-- listappend/listappend.go: taking a component off the stack in Tarjan's loop keeps the invariant.
use torx.Base.{
  ℕ, ◌≡◌, ◌≤◌, ◌<◌, refl, sym, subst, ap, ◌∙◌, ◌⊎◌, inl, inr, List, [], ◌∷◌, ◌++◌, none, some, Bool,
  true, false, length, get_elem?, set, if◌then◌else◌, In, In-left, In-right, In-split, In-get_elem?,
  get_elem?-none_le, All, In-All, All-of_In, arith, ltb, ◌==◌, ==_self, Bool-cases, length-set,
  get_elem?-set, get_elem?-set_other, get_elem?-lt,
}
use torx.Base.Sort.{sort_stable}
use torx.ListAppend.Search.{Kind}
use torx.ListAppend.{Edge}
use torx.ListAppend.Sccs.{Tarjan, low_of, is_on, pop}
use torx.ListAppend.Sccs.Layers.{Among, Layers}
use torx.ListAppend.Sccs.Calls.{Numbered, Lands, Cut, Stacked, Later, Stacked-Later}
use torx.ListAppend.Sccs.Visits.{Sound}
use torx.ListAppend.Sccs.Rounds.{Numbered-lt, same_number}

not_equal : (x y : ℕ) → (x == y) ≡ false → x ≡ y → ⊥
not_equal x y e at = ground arith

In-or-not : (x : ℕ) (xs : List ℕ) → In x xs ⊎ (In x xs → ⊥)
In-or-not x [] = inr (λ i. i)
In-or-not x (y ∷ ys) = elim (Bool-cases (x == y)) [
  | inl e ↦ inl (inl (ground arith))
  | inr e ↦ elim (In-or-not x ys) [
    | inl i ↦ inl (inr i)
    | inr d ↦ inr (λ i. elim i [ inl at ↦ not_equal x y e at | inr j ↦ d j ])
  ]
]

-- What pop takes off is the stack down to the vertex, and `on` is false there and only there anew.
pub record Popped (v : ℕ) (above rest : List ℕ) (on : List Bool) (r : List ℕ × List ℕ × List Bool)
    : Type 0 where
  pub comp : r.0 ≡ above ++ v ∷ []
  pub left : r.1 ≡ rest
  pub size : length r.2 ≡ length on
  pub off : (y : ℕ) → In y (above ++ v ∷ []) → y < length on → get_elem? r.2 y ≡ some false
  pub same : (y : ℕ) → (In y (above ++ v ∷ []) → ⊥) → get_elem? r.2 y ≡ get_elem? on y

pop-Popped :
    (v : ℕ) (above rest : List ℕ) (on : List Bool)
    → All (λ x. (x == v) ≡ false) above
    → Popped v above rest on (pop v (above ++ v ∷ rest) on)
unfolding pop
pop-Popped v [] rest on d = rw (==_self v) (record {
  comp = refl;
  left = refl;
  size = length-set on v false;
  off = λ y i lt. elim i [
    | inl e ↦
        subst (λ z. get_elem? (set on v false) z ≡ some false) (sym e)
          (get_elem?-set on v false (subst (λ z. z < length on) e lt))
    | inr j ↦ elim j [ ]
  ];
  same = λ y away. get_elem?-set_other on v y false (λ e. away (inl e));
})
pop-Popped v (w ∷ above) rest on d =
    let later = pop-Popped v above rest (set on w false) d.1 in
    rw (d.0) (record {
      comp = ap (λ z. w ∷ z) later.comp;
      left = later.left;
      size = later.size ∙ length-set on w false;
      off = λ y i lt. elim (In-or-not y (above ++ v ∷ [])) [
        | inl j ↦ later.off y j (omega (arith, length-set on w false, lt))
        | inr away ↦ elim i [
          | inl e ↦
              later.same y away
              ∙ subst (λ z. get_elem? (set on w false) z ≡ some false) (sym e)
                  (get_elem?-set on w false (subst (λ z. z < length on) e lt))
          | inr j ↦ elim (away j) [ ]
        ]
      ];
      same = λ y away.
          later.same y (λ i. away (inr i)) ∙ get_elem?-set_other on w y false (λ e. away (inl e));
    })

module _ (adj : ℕ → List Edge) (ok : Kind → Bool) (n base : ℕ) where
  -- When the edges of a vertex have been looked at, all that is above it and itself land.
  pub all_land :
      (s : Tarjan) (comps : List (List ℕ)) (v e : ℕ) (st : List ℕ)
      → (c : Cut adj ok n base s comps v e st) → get_elem? (adj v) e ≡ none
      → (x y : ℕ) (k : Kind) → In x (c.above ++ v ∷ [])
      → In (y, k) (adj x)
      → ok k ≡ true
      → Lands adj ok n base s comps (low_of s v) y
  all_land s comps v e st c done x y k i edge o = elim (In-split x c.above (v ∷ []) i) [
    | inl j ↦ c.lands x y k j edge o
    | inr (inl at) ↦
        let edge' = subst (λ z. In (y, k) (adj z)) at edge in
        let (p, here) = In-get_elem? (y, k) (adj v) edge' in
        let lt = get_elem?-lt (adj v) p here in
        c.looked p y k (omega (arith, lt, get_elem?-none_le (adj v) e done)) here o
    | inr (inr j) ↦ elim j [ ]
  ]

  -- What is above a vertex on the stack is not below it.
  parted :
      (s : Tarjan) (comps : List (List ℕ)) (v e : ℕ) (st : List ℕ)
      → (c : Cut adj ok n base s comps v e st) → (y : ℕ) → In y c.rest
      → In y (c.above ++ v ∷ [])
      → ⊥
  parted s comps v e st c y r i =
      let (j, at, lt) = In-All (λ x. (j : ℕ) × Numbered s x j × (j < c.i)) c.rest y c.lesser r in
      elim (In-split y c.above (v ∷ []) i) [
        | inl a ↦
            let (k, at', lt') =
              In-All (λ x. (k : ℕ) × Numbered s x k × (c.i < k)) c.above y c.higher a in
            let same = same_number adj ok n base s y j k at at' in clash j k c.i same lt lt'
        | inr (inl q) ↦
            let same =
              same_number adj ok n base s y j c.i at
                (subst (λ z. Numbered s z c.i) (sym q) c.numbered) in
            clash' j c.i same lt
        | inr (inr q) ↦ q
      ]
    where
      clash : (j k i : ℕ) → j ≡ k → j < i → i < k → ⊥
      clash j k i e a b = ground arith

      clash' : (j i : ℕ) → j ≡ i → j < i → ⊥
      clash' j i e a = ground arith

  -- The state after a component was taken off the stack.
  abbrev pub taken : Tarjan → List ℕ × List ℕ × List Bool → Tarjan
  taken s (comp, rest, on) = record s {
    st = rest;
    on = on;
    out = if ltb 1 (length comp) then s.out ++ sort_stable ltb comp ∷ [] else s.out;
  }

  Numbered-other :
      (s : Tarjan) (x y i j : ℕ) → Numbered s x i → Numbered s y j → (i ≡ j → ⊥) → (x == y) ≡ false
  Numbered-other s x y i j a b d = elim (Bool-cases (x == y)) [
    | inr e ↦ e
    | inl e ↦
        elim (d (
          same_number adj ok n base s x i j a
            (subst (λ z. Numbered s z j) (sym (same_eq x y e)) b))) [ ]
  ]
    where
      same_eq : (x y : ℕ) → (x == y) ≡ true → x ≡ y
      same_eq x y e = ground (arith, e)

  pub popped :
      (s : Tarjan) (comps : List (List ℕ)) (v e : ℕ)
      → (c : Cut adj ok n base s comps v e s.st) → Popped v c.above c.rest s.on (pop v s.st s.on)
  popped s comps v e c =
      subst (λ z. Popped v c.above c.rest s.on (pop v z s.on)) (sym c.cut)
        (pop-Popped v c.above c.rest s.on (
          All-of_In (λ x. (x == v) ≡ false) c.above
            (λ x i.
              let (j, at, lt) =
                In-All (λ y. (j : ℕ) × Numbered s y j × (c.i < j)) c.above x c.higher i in
              Numbered-other s x v j c.i at c.numbered (greater j c.i lt))))
    where
      greater : (j i : ℕ) → i < j → j ≡ i → ⊥
      greater j i a b = ground arith

  taken-Layers :
      (s : Tarjan) (comps : List (List ℕ)) (v e : ℕ)
      → Sound adj ok n base s comps
      → (c : Cut adj ok n base s comps v e s.st) → get_elem? (adj v) e ≡ none
      → low_of s v ≡ c.i
      → Layers adj ok ((c.above ++ v ∷ []) ∷ comps)
  taken-Layers s comps v e inv c done first = (step, inv.layers)
    where
      lowest : (y j : ℕ) → Numbered s y j → c.i ≤ j → In y c.rest → ⊥
      lowest y j at le i =
          let (k, at', lt) =
            In-All (λ x. (k : ℕ) × Numbered s x k × (k < c.i)) c.rest y c.lesser i in
          clash j k c.i (same_number adj ok n base s y j k at at') le lt
        where
          clash : (j k i : ℕ) → j ≡ k → i ≤ j → k < i → ⊥
          clash j k i e a b = ground arith

      step :
          (x y : ℕ) (k : Kind)
          → In x (c.above ++ v ∷ [])
          → In (y, k) (adj x)
          → ok k ≡ true
          → In y (c.above ++ v ∷ []) ⊎ Among y comps
      step x y k i edge o = elim (all_land s comps v e s.st c done x y k i edge o) [
        | inl there ↦ inr there
        | inr (j, at, le) ↦ elim (inv.held y j at) [
          | inr there ↦ inr there.0
          | inl here ↦ elim (In-split y c.above (v ∷ c.rest) (subst (In y) c.cut here.0)) [
            | inl a ↦ inl (In-left y c.above (v ∷ []) a)
            | inr (inl q) ↦ inl (In-right y c.above (v ∷ []) (inl q))
            | inr (inr r) ↦ elim (lowest y j at (subst (λ z. z ≤ j) first le) r) [ ]
          ]
        ]
      ]

  taken-out :
      (s : Tarjan) (comps : List (List ℕ)) (comp : List ℕ) (r : List ℕ × List ℕ × List Bool)
      → r.0 ≡ comp
      → ((d : List ℕ) → In d comps → ltb 1 (length d) ≡ true → In (sort_stable ltb d) s.out)
      → (d : List ℕ) → In d (comp ∷ comps)
      → ltb 1 (length d) ≡ true
      → In (sort_stable ltb d) (taken s r).out
  taken-out s comps comp r at has d (inl e) two =
      let same = e ∙ sym at in
      subst (λ z. In (sort_stable ltb z) (taken s r).out) (sym same)
        (rw (subst (λ z. ltb 1 (length z) ≡ true) same two)
          (In-right (sort_stable ltb r.0) s.out (sort_stable ltb r.0 ∷ []) (inl refl)))
  taken-out s comps comp r at has d (inr i) two = elim (Bool-cases (ltb 1 (length r.0))) [
    | inl e ↦ rw (e) (In-left (sort_stable ltb d) s.out (sort_stable ltb r.0 ∷ []) (has d i two))
    | inr e ↦ rw (e) (has d i two)
  ]

  is_on-get :
      (s : Tarjan) (r : List ℕ × List ℕ × List Bool) (y : ℕ) (b : Bool)
      → get_elem? r.2 y ≡ some b
      → is_on (taken s r) y ≡ b
  is_on-get s r y b e = rw (is_on, e) refl

  is_on-same :
      (s : Tarjan) (r : List ℕ × List ℕ × List Bool) (y : ℕ)
      → get_elem? r.2 y ≡ get_elem? s.on y
      → is_on (taken s r) y ≡ is_on s y
  is_on-same s r y e = rw (is_on, e) refl

  pub taken-Sound :
      (s : Tarjan) (comps : List (List ℕ)) (v e : ℕ)
      → Sound adj ok n base s comps
      → (c : Cut adj ok n base s comps v e s.st) → get_elem? (adj v) e ≡ none
      → low_of s v ≡ c.i
      → (r : List ℕ × List ℕ × List Bool) → Popped v c.above c.rest s.on r
      → Sound adj ok n base (taken s r) ((c.above ++ v ∷ []) ∷ comps)
  taken-Sound s comps v e inv c done first r p = record {
    index_size = inv.index_size;
    low_size = inv.low_size;
    on_size = p.size ∙ inv.on_size;
    below = inv.below;
    held = λ y i at. elim (In-or-not y (c.above ++ v ∷ [])) [
      | inl j ↦
          let lt = Numbered-lt adj ok n base s y i inv.index_size at in
          inr (inl j, is_on-get s r y false (p.off y j (omega (arith, lt, inv.on_size))))
      | inr away ↦ elim (inv.held y i at) [
        | inr there ↦ inr (inr there.0, is_on-same s r y (p.same y away) ∙ there.1)
        | inl here ↦ elim (In-split y c.above (v ∷ c.rest) (subst (In y) c.cut here.0)) [
          | inl a ↦ elim (away (In-left y c.above (v ∷ []) a)) [ ]
          | inr (inl q) ↦ elim (away (In-right y c.above (v ∷ []) (inl q))) [ ]
          | inr (inr b) ↦
              inl (subst (In y) (sym p.left) b, is_on-same s r y (p.same y away) ∙ here.1)
        ]
      ]
    ];
    on_stack = λ y i.
        let b = subst (In y) p.left i in
        is_on-same s r y (p.same y (parted s comps v e s.st c y b))
        ∙ inv.on_stack y (subst (In y) (sym c.cut) (In-right y c.above (v ∷ c.rest) (inr b)));
    layers = taken-Layers s comps v e inv c done first;
    out_has = taken-out s comps (c.above ++ v ∷ []) r p.comp inv.out_has;
  }

  taken-Later : (s : Tarjan) (r : List ℕ × List ℕ × List Bool) → Later adj ok n base s (taken s r)
  taken-Later s r = record {
    number = λ y i at. at;
    lows = λ y i at. omega arith;
    based = λ y i at h. h;
  }

  pub taken-Stacked :
      (s : Tarjan) (comps : List (List ℕ)) (v e : ℕ) (frames : List (ℕ × ℕ))
      → (c : Cut adj ok n base s comps v e s.st) → Stacked adj ok n base s comps frames c.rest
      → (r : List ℕ × List ℕ × List Bool) → Popped v c.above c.rest s.on r
      → Stacked adj ok n base (taken s r) ((c.above ++ v ∷ []) ∷ comps) frames r.1
  taken-Stacked s comps v e frames c h r p =
      subst (λ z. Stacked adj ok n base (taken s r) ((c.above ++ v ∷ []) ∷ comps) frames z)
        (sym p.left)
        (Stacked-Later adj ok n base s (taken s r) comps ((c.above ++ v ∷ []) ∷ comps) frames c.rest
          (taken-Later s r) (λ x i. inr i) h)

-- ===== src/ListAppend/Sccs/Visits.antt =====
-- listappend/listappend.go: what Tarjan's loop keeps of the numbers, the stack and the components, and
-- that visiting a vertex keeps it.
use mathlib.Core.Option.{none-ne-some, some-injective}
use torx.Base.{
  ℕ, ◌≡◌, ◌≤◌, ◌<◌, refl, sym, subst, ◌∙◌, ◌⊎◌, inl, inr, List, [], ◌∷◌, none, some, Bool, true,
  false, length, In, All-of_In, arith, ltb, ◌==◌, Bool-cases, length-set, get_elem?-set,
  get_elem?-set_other,
}
use torx.Base.Sort.{sort_stable}
use torx.ListAppend.Search.{Kind}
use torx.ListAppend.{Edge}
use torx.ListAppend.Sccs.{Tarjan, index_of, low_of, is_on, visit}
use torx.ListAppend.Sccs.Layers.{Among, Layers}
use torx.ListAppend.Sccs.Calls.{Numbered, Stacked, Later, Stacked-Later, Stacked-Numbered}

module _ (adj : ℕ → List Edge) (ok : Kind → Bool) (n base : ℕ) where
  -- A numbered vertex is on the stack or was closed, and `on` says which.
  abbrev pub Held : Tarjan → List (List ℕ) → ℕ → Type 0
  Held s comps y = (In y s.st × (is_on s y ≡ true)) ⊎ (Among y comps × (is_on s y ≡ false))

  pub record Sound (s : Tarjan) (comps : List (List ℕ)) : Type 0 where
    pub index_size : length s.index ≡ n
    pub low_size : length s.low ≡ n
    pub on_size : length s.on ≡ n
    pub below : (y i : ℕ) → Numbered s y i → i < s.next
    pub held : (y i : ℕ) → Numbered s y i → Held s comps y
    pub on_stack : (y : ℕ) → In y s.st → is_on s y ≡ true
    pub layers : Layers adj ok comps
    pub out_has :
        (comp : List ℕ)
        → In comp comps
        → ltb 1 (length comp) ≡ true
        → In (sort_stable ltb comp) s.out

  -- A vertex is visited: its number and its low are the next, and the others' stay.
  pub index_of-visit :
      (w : ℕ) (s : Tarjan) → w < length s.index → index_of (visit w s) w ≡ some s.next
  unfolding visit
  index_of-visit w s h = rw (index_of, get_elem?-set s.index w (some s.next) h) refl

  pub index_of-visit_other :
      (w y : ℕ) (s : Tarjan) → (y ≡ w → ⊥) → index_of (visit w s) y ≡ index_of s y
  unfolding visit
  index_of-visit_other w y s d = rw (index_of, get_elem?-set_other s.index w y (some s.next) d) refl

  low_of-visit : (w : ℕ) (s : Tarjan) → w < length s.low → low_of (visit w s) w ≡ s.next
  unfolding visit
  low_of-visit w s h = rw (low_of, get_elem?-set s.low w s.next h) refl

  pub low_of-visit_other : (w y : ℕ) (s : Tarjan) → (y ≡ w → ⊥) → low_of (visit w s) y ≡ low_of s y
  unfolding visit
  low_of-visit_other w y s d = rw (low_of, get_elem?-set_other s.low w y s.next d) refl

  is_on-visit : (w : ℕ) (s : Tarjan) → w < length s.on → is_on (visit w s) w ≡ true
  unfolding visit
  is_on-visit w s h = rw (is_on, get_elem?-set s.on w true h) refl

  is_on-visit_other : (w y : ℕ) (s : Tarjan) → (y ≡ w → ⊥) → is_on (visit w s) y ≡ is_on s y
  unfolding visit
  is_on-visit_other w y s d = rw (is_on, get_elem?-set_other s.on w y true d) refl

  -- A vertex without a number is another than one with a number.
  pub unnumbered : (s : Tarjan) (w y i : ℕ) → index_of s w ≡ none → Numbered s y i → y ≡ w → ⊥
  unnumbered s w y i free at e = apart (subst (λ z. Numbered s z i) e at)
    where
      apart : Numbered s w i → ⊥
      apart h = none-ne-some i (sym free ∙ h)

  pub equal_or_not : (y w : ℕ) → (y ≡ w) ⊎ (y ≡ w → ⊥)
  equal_or_not y w = elim (Bool-cases (y == w)) [
    | inl e ↦ inl (ground arith)
    | inr e ↦ inr (λ h. ground arith)
  ]

  visit-Later : (w : ℕ) (s : Tarjan) → index_of s w ≡ none → Later adj ok n base s (visit w s)
  visit-Later w s free = record {
    number = λ y i at. index_of-visit_other w y s (unnumbered s w y i free at) ∙ at;
    lows =
        λ y i at. let e = low_of-visit_other w y s (unnumbered s w y i free at) in omega (arith, e);
    based = λ y i at h.
        let e = low_of-visit_other w y s (unnumbered s w y i free at) in omega (arith, e, h);
  }

  pub visit-Sound :
      (w : ℕ) (s : Tarjan) (comps : List (List ℕ))
      → Sound s comps
      → w < n
      → index_of s w ≡ none
      → Sound (visit w s) comps
  unfolding visit
  visit-Sound w s comps inv lt free = record {
    index_size = length-set s.index w (some s.next) ∙ inv.index_size;
    low_size = length-set s.low w s.next ∙ inv.low_size;
    on_size = length-set s.on w true ∙ inv.on_size;
    below = λ y i at. elim (equal_or_not y w) [
      | inl e ↦
          let fresh = index_of-visit w s (omega (arith, inv.index_size, lt)) in
          let same =
            some-injective s.next i
              (sym fresh ∙ subst (λ z. index_of (visit w s) z ≡ some i) e at) in
          omega (arith, same)
      | inr d ↦
          let old = inv.below y i (sym (index_of-visit_other w y s d) ∙ at) in omega (arith, old)
    ];
    held = λ y i at. elim (equal_or_not y w) [
      | inl e ↦ inl (
        inl e,
        subst (λ z. is_on (visit w s) z ≡ true) (sym e)
            (is_on-visit w s (omega (arith, inv.on_size, lt))),
      )
      | inr d ↦ elim (inv.held y i (sym (index_of-visit_other w y s d) ∙ at)) [
        | inl h ↦ inl (inr h.0, is_on-visit_other w y s d ∙ h.1)
        | inr h ↦ inr (h.0, is_on-visit_other w y s d ∙ h.1)
      ]
    ];
    on_stack = λ y i. elim (equal_or_not y w) [
      | inl e ↦
          subst (λ z. is_on (visit w s) z ≡ true) (sym e)
            (is_on-visit w s (omega (arith, inv.on_size, lt)))
      | inr d ↦ elim i [
        | inl e ↦ elim (d e) [ ]
        | inr j ↦ is_on-visit_other w y s d ∙ inv.on_stack y j
      ]
    ];
    layers = inv.layers;
    out_has = inv.out_has;
  }

  pub visit-Stacked :
      (w : ℕ) (s : Tarjan) (comps : List (List ℕ)) (frames : List (ℕ × ℕ))
      → Sound s comps
      → Stacked adj ok n base s comps frames s.st
      → w < n
      → index_of s w ≡ none
      → base ≤ s.next
      → (s.st ≡ [] → s.next ≡ base)
      → Stacked adj ok n base (visit w s) comps ((w, 0) ∷ frames) (w ∷ s.st)
  visit-Stacked w s comps frames inv h lt free le first =
      let later = visit-Later w s free in
      let low = low_of-visit w s (omega (arith, inv.low_size, lt)) in
      (
        record {
          above = [];
          rest = s.st;
          i = s.next;
          cut = refl;
          numbered = index_of-visit w s (omega (arith, inv.index_size, lt));
          low_le = omega (arith, low);
          base_le = omega (arith, low, le);
          higher = tt;
          lesser =
              All-of_In (λ x. (j : ℕ) × Numbered (visit w s) x j × (j < s.next)) s.st
                (λ x i.
                  let (j, at, b) = Stacked-Numbered adj ok n base s comps frames s.st h x i in
                  (j, later.number x j at, inv.below x j at));
          bottom = first;
          lands = λ x y k i edge o. elim i [ ];
          looked = λ p y k lt' edge o. elim lt' [ ];
        },
        Stacked-Later adj ok n base s (visit w s) comps comps frames s.st later (λ x i. i) h,
      )

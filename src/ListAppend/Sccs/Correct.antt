-- ===== src/ListAppend/Sccs/Correct.antt =====
-- listappend/listappend.go: sccs ends within its fuel, and parts no cycle.
use mathlib.Core.Option.{none-ne-some, some-injective}
use torx.Base.{
  ℕ, zero, suc, ◌+◌, ◌-◌, ◌≡◌, ◌≤◌, ◌<◌, refl, sym, subst, ap, ◌∙◌, ◌⊎◌, inl, inr, List, [], ◌∷◌,
  Option, none, some, Bool, false, length, get_elem?, replicate, length-replicate, In, get_elem?-In,
  arith, Option-cases,
}
use torx.ListAppend.Search.{Kind}
use torx.ListAppend.{Edge}
use torx.ListAppend.Sccs.{Tarjan, index_of, visit, close, return_to, round, calls, roots, fresh}
use torx.ListAppend.Sccs.Calls.{Numbered, Stacked, Stacked-Later}
use torx.ListAppend.Sccs.Visits.{
  Sound, visit-Sound, visit-Stacked, index_of-visit, index_of-visit_other, unnumbered, equal_or_not,
}
use torx.ListAppend.Sccs.Rounds.{Kept, Sound-call, call-Later, follow-Kept}
use torx.ListAppend.Sccs.Closing.{Closes, end_root, end_caller}
use torx.ListAppend.Sccs.Work.{unlooked, work, work-visit, work-round, round_number}

List-cases : {A : Type 0} (xs : List A) → (xs ≡ []) ⊎ ((y : A) × (ys : List A) × (xs ≡ y ∷ ys))
List-cases [] = inl refl
List-cases (x ∷ xs) = inr (x, xs, refl)

module _ (adj : ℕ → List Edge) (ok : Kind → Bool) (n : ℕ)
    (bound : (x y : ℕ) (k : Kind) → In (y, k) (adj x) → y < n) where
  round-Kept :
      (base : ℕ) (s : Tarjan) (comps : List (List ℕ)) (v e : ℕ) (frames : List (ℕ × ℕ))
      → Kept adj ok n base s comps
      → s.call ≡ (v, e) ∷ frames
      → Closes adj ok n base (round adj ok (v, e) frames s)
  unfolding round
  round-Kept base s comps v e frames (inv, h) at =
      let h' = subst (λ z. Stacked adj ok n base s comps z s.st) at h in
      elim (Option-cases (get_elem? (adj v) e)) [
        | inr ((w, k), here) ↦
            rw (round, here)
              (
                comps,
                follow-Kept adj ok n base s comps v e w k frames
                    (bound v w k (get_elem?-In (adj v) e (w, k) here)) inv h' here,
              )
        | inl done ↦ rw (round, done) (ends frames h' done)
      ]
    where
      ends :
          (fs : List (ℕ × ℕ))
          → Stacked adj ok n base s comps ((v, e) ∷ fs) s.st
          → get_elem? (adj v) e ≡ none
          → Closes adj ok n base (close adj ok v (return_to adj ok v fs (record s { call = fs })))
      ends [] g done =
          end_root adj ok n base (record s { call = [] }) comps v e
            (Sound-call adj ok n base s [] comps inv)
            (Stacked-Later adj ok n base s (record s { call = [] }) comps comps ((v, e) ∷ []) s.st
              (call-Later adj ok n base s []) (λ x i. i) g)
            refl done
      ends ((p, e') ∷ fs) g done =
          end_caller adj ok n base (record s { call = (p, e') ∷ fs }) comps v e p e' fs
            (Sound-call adj ok n base s ((p, e') ∷ fs) comps inv)
            (Stacked-Later adj ok n base s (record s { call = (p, e') ∷ fs }) comps comps
              ((v, e) ∷ (p, e') ∷ fs) s.st (call-Later adj ok n base s ((p, e') ∷ fs)) (λ x i. i) g)
            refl done

  -- The loop has ended: nothing is on the stacks, the numbers are those of before, and no work was
  -- added.
  record Ended (base : ℕ) (s t : Tarjan) (comps : List (List ℕ)) : Type 0 where
    sound : Sound adj ok n base t comps
    no_call : t.call ≡ []
    no_st : t.st ≡ []
    numbers : (y i : ℕ) → Numbered s y i → Numbered t y i
    less : work adj ok n base t ≤ work adj ok n base s

  ended :
      (base : ℕ) (s : Tarjan) (comps : List (List ℕ))
      → Kept adj ok n base s comps
      → s.call ≡ []
      → Ended base s s comps
  ended base s comps (inv, h) nil = record {
    sound = inv;
    no_call = nil;
    no_st = subst (λ z. Stacked adj ok n base s comps z s.st) nil h;
    numbers = λ y i at. at;
    less = omega arith;
  }

  calls-nil : (fuel : ℕ) (s : Tarjan) → s.call ≡ [] → calls adj ok (suc fuel) s ≡ s
  unfolding calls
  calls-nil fuel s e =
      ap
        (λ (z : List (ℕ × ℕ)). elim z as (λ _. Tarjan) [
          | [] ↦ s
          | frame ∷ frames ↦ calls adj ok fuel (round adj ok frame frames s)
        ])
        e

  calls-cons :
      (fuel : ℕ) (s : Tarjan) (frame : ℕ × ℕ) (frames : List (ℕ × ℕ))
      → s.call ≡ frame ∷ frames
      → calls adj ok (suc fuel) s ≡ calls adj ok fuel (round adj ok frame frames s)
  unfolding calls
  calls-cons fuel s frame frames e =
      ap
        (λ (z : List (ℕ × ℕ)). elim z as (λ _. Tarjan) [
          | [] ↦ s
          | frame ∷ frames ↦ calls adj ok fuel (round adj ok frame frames s)
        ])
        e

  calls-Ended :
      (base fuel : ℕ) (s : Tarjan) (comps : List (List ℕ))
      → Kept adj ok n base s comps
      → work adj ok n base s ≤ fuel
      → (more : List (List ℕ)) × Ended base s (calls adj ok fuel s) more
  unfolding calls
  calls-Ended base zero s comps kept le = elim (List-cases s.call) [
    | inl nil ↦ (comps, ended base s comps kept nil)
    | inr ((v, e), frames, at) ↦
        let left : unlooked adj ok n base s.call
            ≡ suc (length (adj v) - e) + unlooked adj ok n base frames =
          ap (unlooked adj ok n base) at in
        ground (arith, left, le)
  ]
  calls-Ended base (suc fuel) s comps kept le = elim (List-cases s.call) [
    | inl nil ↦ (
      comps,
      subst (λ z. Ended base s z comps) (sym (calls-nil fuel s nil)) (ended base s comps kept nil),
    )
    | inr ((v, e), frames, at) ↦
        let lower =
          work-round adj ok n base v e frames s
            (λ x y j p here.
              let lt = bound x y j (get_elem?-In (adj x) p (y, j) here) in
              omega (arith, lt, (kept.0).index_size))
            at in
        let (more, kept') = round-Kept base s comps v e frames kept at in
        let (last, end) =
          calls-Ended base fuel (round adj ok (v, e) frames s) more kept'
            (omega (arith, lower, le)) in
        (
          last,
          subst (λ z. Ended base s z last) (sym (calls-cons fuel s (v, e) frames at))
              (record {
                sound = end.sound;
                no_call = end.no_call;
                no_st = end.no_st;
                numbers = λ y i b. end.numbers y i (round_number adj ok n base v e frames s y i b);
                less = omega (arith, lower, end.less);
              }),
        )
  ]

  rebase :
      (base base' : ℕ) (s : Tarjan) (comps : List (List ℕ))
      → Sound adj ok n base s comps
      → Sound adj ok n base' s comps
  rebase base base' s comps inv = record {
    index_size = inv.index_size;
    low_size = inv.low_size;
    on_size = inv.on_size;
    below = inv.below;
    held = inv.held;
    on_stack = inv.on_stack;
    layers = inv.layers;
    out_has = inv.out_has;
  }

  -- Between the roots, with the first `root` vertices numbered.
  pub record Between (root : ℕ) (s : Tarjan) (comps : List (List ℕ)) : Type 0 where
    pub sound : Sound adj ok n 0 s comps
    pub no_call : s.call ≡ []
    pub no_st : s.st ≡ []
    pub met : (y : ℕ) → y < root → (i : ℕ) × Numbered s y i

  root-Ended :
      (fuel root : ℕ) (s : Tarjan) (comps : List (List ℕ))
      → Between root s comps
      → root < n
      → work adj ok n 0 s ≤ fuel
      → index_of s root ≡ none
      → (more : List (List ℕ)) × Ended s.next (visit root s) (calls adj ok fuel (visit root s)) more
  unfolding visit
  root-Ended fuel root s comps b lt le free =
      let inv = rebase 0 s.next s comps b.sound in
      let same = work-visit adj ok n s.next root s (omega (arith, lt, inv.index_size)) free in
      calls-Ended s.next fuel (visit root s) comps
        (
          visit-Sound adj ok n s.next root s comps inv lt free,
          subst (λ z. Stacked adj ok n s.next (visit root s) comps ((root, 0) ∷ z) (root ∷ s.st))
              (sym b.no_call)
              (visit-Stacked adj ok n s.next root s comps [] inv b.no_st lt free (omega arith)
                (λ nil. refl)),
        )
        (omega (arith, same, le))

  -- The vertices below the next root have numbers.
  next_met :
      (fuel root : ℕ) (s t : Tarjan) (comps more : List (List ℕ))
      → Between root s comps
      → root < n
      → index_of s root ≡ none
      → Ended s.next (visit root s) t more
      → Between (suc root) t more
  next_met fuel root s t comps more b lt free e = record {
    sound = rebase s.next 0 t more e.sound;
    no_call = e.no_call;
    no_st = e.no_st;
    met = λ y below. elim (equal_or_not adj ok n 0 y root) [
      | inl q ↦ (
        s.next,
        e.numbers y s.next (
            subst (λ z. Numbered (visit root s) z s.next) (sym q)
              (index_of-visit adj ok n 0 root s (omega (arith, lt, b.sound.index_size)))),
      )
      | inr q ↦
          let (i, at) = b.met y (omega arith) in
          (
            i,
            e.numbers y i (
                index_of-visit_other adj ok n 0 root y s (unnumbered adj ok n 0 s root y i free at)
                ∙ at),
          )
    ];
  }

  already_met :
      (root i : ℕ) (s : Tarjan) (comps : List (List ℕ))
      → Between root s comps
      → index_of s root ≡ some i
      → Between (suc root) s comps
  already_met root i s comps b at = record {
    sound = b.sound;
    no_call = b.no_call;
    no_st = b.no_st;
    met = λ y below. elim (equal_or_not adj ok n 0 y root) [
      | inl q ↦ (i, subst (λ z. Numbered s z i) (sym q) at)
      | inr q ↦ b.met y (omega arith)
    ];
  }

  pub roots-Between :
      (fuel m root : ℕ) (s : Tarjan) (comps : List (List ℕ))
      → Between root s comps
      → root + m ≡ n
      → work adj ok n 0 s ≤ fuel
      → (more : List (List ℕ)) × Between n (roots adj ok fuel root m s) more
  unfolding roots
  roots-Between fuel zero root s comps b size le =
      let at : root ≡ n = omega (arith, size) in (comps, subst (λ z. Between z s comps) at b)
  roots-Between fuel (suc m) root s comps b size le = elim (Option-cases (index_of s root)) [
    | inl free ↦
        let lt : root < n = omega (arith, size) in
        let (more, e) = root-Ended fuel root s comps b lt le free in
        let same = work-visit adj ok n 0 root s (omega (arith, lt, b.sound.index_size)) free in
        rw (roots, free)
          (roots-Between fuel m (suc root) (calls adj ok fuel (visit root s)) more
            (next_met fuel root s (calls adj ok fuel (visit root s)) comps more b lt free e)
            (omega (arith, size)) (omega (arith, e.less, same, le)))
    | inr (i, old) ↦
        rw (roots, old)
          (roots-Between fuel m (suc root) s comps (already_met root i s comps b old)
            (omega (arith, size)) le)
  ]

  unnumbered_fresh : (m y i : ℕ) → index_of (fresh adj ok m) y ≡ some i → ⊥
  unnumbered_fresh m y i at =
      let slots : List (Option ℕ) = replicate m none in
      elim (Option-cases (get_elem? slots y)) [
        | inl e ↦
            let free : index_of (fresh adj ok m) y ≡ none = rw (index_of, e) refl in
            none-ne-some i (sym free ∙ at)
        | inr (o, e) ↦
            let free : index_of (fresh adj ok m) y ≡ o = rw (index_of, e) refl in
            none-ne-some i (sym (free ∙ blank m y o e) ∙ at)
      ]
    where
      blank :
          (m y : ℕ) (o : Option ℕ)
          → get_elem? {A = Option ℕ} (replicate m none) y ≡ some o
          → o ≡ none
      blank zero y o e = cc
      blank (suc m) zero o e = some-injective o none (sym e)
      blank (suc m) (suc y) o e = blank m y o e

  pub start-Between : Between 0 (fresh adj ok n) []
  start-Between = record {
    sound = record {
      index_size = length-replicate n none;
      low_size = length-replicate n 0;
      on_size = length-replicate n false;
      below = λ y i at. elim (unnumbered_fresh n y i at) [ ];
      held = λ y i at. elim (unnumbered_fresh n y i at) [ ];
      on_stack = λ y i. elim i [ ];
      layers = tt;
      out_has = λ d i two. elim i [ ];
    };
    no_call = refl;
    no_st = refl;
    met = λ y lt. elim lt [ ];
  }

-- ===== src/Pool/Match/Outcome.antt =====
-- pool.go: augmentSpec as a whole: with fuel above the number of unseen candidates it returns, and it wins
-- as Pool.Match.Search says or has seen every candidate that could have helped.
use native.Mathlib.Decide.{ℕ_discrete, dec_lt}
use torx.Base.{
  ℕ, zero, suc, ◌+◌, ◌-◌, ◌≤◌, ◌<◌, ◌≡◌, ◌⊎◌, inl, inr, refl, sym, ◌∙◌, List, [], ◌∷◌, Option, none,
  some, Bool, true, false, length, get_elem?, get_elem?-lt, if◌then◌else◌, arith, Bool-cases,
  Option-cases,
}
use torx.Spec.{NodeSpec}
use torx.Node.{Node}
use torx.Pool.Match.{Matching, mark, assign, update, fits, scan, augment_spec}
use torx.Pool.Match.Search.{Fit, Consistent, Won, Behind, Won-free, Won-move}

-- How many of the first `n` candidates are unseen.
pub unseen : ℕ → (ℕ → Bool) → ℕ
unseen zero seen = 0
unseen (suc n) seen = (if seen n then 0 else 1) + unseen n seen

pub unseen_mono :
    (n : ℕ) (s t : ℕ → Bool) → ((j : ℕ) → s j ≡ true → t j ≡ true) → unseen n t ≤ unseen n s
unfolding unseen
unseen_mono zero s t h = omega arith
unseen_mono (suc n) s t h = ground (arith, unseen_mono n s t h, h n)

pub unseen-update :
    (n j : ℕ) (s : ℕ → Bool) → j < n → s j ≡ false → unseen n (update s j true) < unseen n s
unfolding unseen
unseen-update zero j s lt new = elim lt [ ]
unseen-update (suc n) j s lt new =
    ground (arith, unseen-update n j s, unseen_mono n s (update s j true) (λ k e. ground arith))

pub unseen-empty : (n : ℕ) → unseen n (λ _. false) ≡ n
unfolding unseen
unseen-empty zero = refl
unseen-empty (suc n) = omega (arith, unseen-empty n)

module _ (specs : List NodeSpec) (candidates : List Node) where
  -- A search for spec `s` that ends in false: the matching is as before, all that fits `s` is
  -- seen, and so is all that fits a spec whose place the search looked at.
  pub record Lost (s : ℕ) (st st' : Matching) : Type 0 where
    pub same_soc : st'.spec_of_cand ≡ st.spec_of_cand
    pub same_cos : st'.cand_of_spec ≡ st.cand_of_spec
    pub mono : (j : ℕ) → st.seen j ≡ true → st'.seen j ≡ true
    pub closed :
        (j : ℕ)
        → st'.seen j ≡ true
        → (st.seen j ≡ true)
          ⊎ ((h : ℕ) × (st.spec_of_cand j ≡ some h)
              × ((k : ℕ) → Fit specs candidates h k → st'.seen k ≡ true))
    pub all : (k : ℕ) → Fit specs candidates s k → st'.seen k ≡ true

  pub data Outcome (s : ℕ) (st : Matching) (r : Option (Bool × Matching)) : Type 0 where
    won : (st' : Matching) → r ≡ some (true, st') → Won specs candidates s st st' → Outcome s st r
    lost : (st' : Matching) → r ≡ some (false, st') → Lost s st st' → Outcome s st r

  -- A search from a state that has seen more, over the same matching.
  Won-weaken :
      (s : ℕ) (st st1 st' : Matching)
      → st1.spec_of_cand ≡ st.spec_of_cand
      → st1.cand_of_spec ≡ st.cand_of_spec
      → ((j : ℕ) → st.seen j ≡ true → st1.seen j ≡ true)
      → Won specs candidates s st1 st'
      → Won specs candidates s st st'
  Won-weaken s st st1 st' soc cos mono w = record {
    place = w.place;
    placed = w.placed;
    held = w.held;
    fresh = ground (arith, w.fresh, mono w.place);
    fit_place = w.fit_place;
    others_back = w.others_back;
    others_forth = w.others_forth;
    only = λ j e. rw (← soc) (w.only j e);
    frame = λ j e. rw (← soc) (w.frame j (mono j e));
    still = λ i ne h. rw (← cos) (w.still i ne (λ j e. mono j (h j (rw (← soc) e))));
    keeps = λ i j e. w.keeps i j (rw cos e);
    fit_others = w.fit_others;
  }

  Lost-weaken :
      (s : ℕ) (st st1 st' : Matching)
      → st1.spec_of_cand ≡ st.spec_of_cand
      → st1.cand_of_spec ≡ st.cand_of_spec
      → ((j : ℕ) → st.seen j ≡ true → st1.seen j ≡ true)
      → ((j : ℕ)
          → st1.seen j ≡ true
          → (st.seen j ≡ true)
            ⊎ ((h : ℕ) × (st.spec_of_cand j ≡ some h)
                × ((k : ℕ) → Fit specs candidates h k → st1.seen k ≡ true)))
      → Lost s st1 st'
      → Lost s st st'
  Lost-weaken s st st1 st' soc cos mono closed l = record {
    same_soc = l.same_soc ∙ soc;
    same_cos = l.same_cos ∙ cos;
    mono = λ j e. l.mono j (mono j e);
    closed = λ j e. elim (l.closed j e) [
      | inl old ↦ elim (closed j old) [
        | inl older ↦ inl older
        | inr (h, p, q) ↦ inr (h, p, λ k f. l.mono k (q k f))
      ]
      | inr (h, p, q) ↦ inr (h, rw (← soc) p, q)
    ];
    all = l.all;
  }

  outcome_weaken :
      (s : ℕ) (st st1 : Matching) {r : Option (Bool × Matching)}
      → st1.spec_of_cand ≡ st.spec_of_cand
      → st1.cand_of_spec ≡ st.cand_of_spec
      → ((j : ℕ) → st.seen j ≡ true → st1.seen j ≡ true)
      → ((j : ℕ)
          → st1.seen j ≡ true
          → (st.seen j ≡ true)
            ⊎ ((h : ℕ) × (st.spec_of_cand j ≡ some h)
                × ((k : ℕ) → Fit specs candidates h k → st1.seen k ≡ true)))
      → Outcome s st1 r
      → Outcome s st r
  outcome_weaken s st st1 soc cos mono closed (won st' e w) =
      won st' e (Won-weaken s st st1 st' soc cos mono w)
  outcome_weaken s st st1 soc cos mono closed (lost st' e l) =
      lost st' e (Lost-weaken s st st1 st' soc cos mono closed l)

  module _ (fuel : ℕ) (move : ℕ → Matching → Option (Bool × Matching)) where
    -- What the recursive call does, on states with fewer than `fuel` unseen candidates.
    abbrev Moves : Type 0
    Moves =
        (h : ℕ) (st : Matching)
        → Consistent specs candidates st
        → Behind specs candidates h st
        → unseen (length candidates) st.seen < fuel
        → Outcome h st (move h st)

    scan_taken :
        Moves
        → (s j h : ℕ) (node : Node) (rest : List Node) (st : Matching)
        → Consistent specs candidates st
        → Behind specs candidates s st
        → j < length candidates
        → unseen (length candidates) st.seen < suc fuel
        → st.seen j ≡ false
        → fits specs s node ≡ true
        → Fit specs candidates s j
        → st.spec_of_cand j ≡ some h
        → ((st1 : Matching)
            → st1.spec_of_cand ≡ st.spec_of_cand
            → st1.cand_of_spec ≡ st.cand_of_spec
            → ((k : ℕ) → st.seen k ≡ true → st1.seen k ≡ true)
            → st1.seen j ≡ true
            → Outcome s st1 (scan specs move s (suc j) rest st1))
        → Outcome s st (scan specs move s j (node ∷ rest) st)
    unfolding scan mark
    scan_taken moves s j h node rest st c b lt fuel_ok new ok f taken later =
        elim (moves h (mark j st) cm bm fewer) [
          | won st2 e w ↦
              won (assign j s st2) (rw (new, ok, taken, e, scan))
                (Won-move specs candidates s j h st st2 c b new taken f w)
          | lost st1 e l ↦
              rw (new, ok, taken, e, scan)
                (outcome_weaken s st st1 l.same_soc l.same_cos (λ k q. l.mono k (ground (arith, q)))
                  (λ k q. reached st1 l k (l.closed k q))
                  (later st1 l.same_soc l.same_cos (λ k q. l.mono k (ground (arith, q)))
                    (l.mono j (ground arith))))
        ]
      where
        cm : Consistent specs candidates (mark j st)
        cm = record { back = c.back; forth = c.forth; fit = c.fit }

        bm : Behind specs candidates h (mark j st)
        bm = λ k e. ground (arith, c.back h k, c.back h j)

        fewer : unseen (length candidates) (mark j st).seen < fuel
        fewer = omega (arith, unseen-update (length candidates) j st.seen lt new)

        reached :
            (st1 : Matching)
            → Lost h (mark j st) st1
            → (k : ℕ)
            → ((mark j st).seen k ≡ true)
              ⊎ ((i : ℕ) × (st.spec_of_cand k ≡ some i)
                  × ((m : ℕ) → Fit specs candidates i m → st1.seen m ≡ true))
            → (st.seen k ≡ true)
              ⊎ ((i : ℕ) × (st.spec_of_cand k ≡ some i)
                  × ((m : ℕ) → Fit specs candidates i m → st1.seen m ≡ true))
        reached st1 l k (inr q) = inr q
        reached st1 l k (inl q) = elim (ℕ_discrete k j) [
          | yes p ↦ inr (h, ground arith, l.all)
          | no p ↦ inl (ground arith)
        ]

    module _ (s j : ℕ) (st : Matching) where
      -- The candidates before `j` that fit are behind, and so is `j`.
      abbrev Past : Type 0
      Past = (k : ℕ) → k < j → Fit specs candidates s k → st.seen k ≡ true

      past_step :
          Past
          → (Fit specs candidates s j → st.seen j ≡ true)
          → (k : ℕ) → k < suc j
          → Fit specs candidates s k
          → st.seen k ≡ true
      past_step past at_j k lt f = elim (ℕ_discrete k j) [
        | yes p ↦ rw p (at_j (rw p at f))
        | no p ↦ past k (omega arith) f
      ]

      past_end :
          Past
          → ((k : ℕ) → ◌≡◌ {A = Option Node} none (get_elem? candidates (j + k)))
          → (k : ℕ) → Fit specs candidates s k
          → st.seen k ≡ true
      past_end past at k (node, e, ok) = elim (dec_lt k j) [
        | yes p ↦ past k p (node, e, ok)
        | no p ↦
            let split : j + (k - j) ≡ k = omega arith in
            let gone : ◌≡◌ {A = Option Node} none (get_elem? candidates k) =
              rw split at (at (k - j)) in
            cc
      ]

    scan_outcome :
        Moves
        → (s j : ℕ) (ns : List Node) (st : Matching)
        → ((k : ℕ) → get_elem? ns k ≡ get_elem? candidates (j + k))
        → Consistent specs candidates st
        → Behind specs candidates s st
        → unseen (length candidates) st.seen < suc fuel
        → Past s j st
        → Outcome s st (scan specs move s j ns st)
    unfolding scan
    scan_outcome moves s j [] st at c b fuel_ok past = lost st refl (record {
      same_soc = refl;
      same_cos = refl;
      mono = λ k e. e;
      closed = λ k e. inl e;
      all = past_end s j st past at;
    })
    scan_outcome moves s j (node ∷ rest) st at c b fuel_ok past =
        let later = λ (st1 : Matching). scan_outcome moves s (suc j) rest st1 shift in
        elim (Bool-cases (st.seen j)) [
          | inl old ↦ rw old (later st c b fuel_ok (past_step s j st past (λ _. old)))
          | inr new ↦ elim (Bool-cases (fits specs s node)) [
            | inl ok ↦ elim (Option-cases (st.spec_of_cand j)) [
              | inl free ↦
                  won (assign j s (mark j st)) (rw (new, ok, free))
                    (Won-free specs candidates s j st c new free (node, here, ok))
              | inr (h, taken) ↦
                  scan_taken moves s j h node rest st c b (get_elem?-lt candidates j here) fuel_ok
                    new ok (node, here, ok) taken
                    λ st1 soc cos mono at_j.
                      later st1 (c1 st1 soc cos) (b1 st1 soc mono) (f1 st1 mono)
                        (past_step s j st1 (λ k lt f. mono k (past k lt f)) (λ _. at_j))
            ]
            | inr bad ↦
                rw (new, bad)
                  (later st c b fuel_ok (past_step s j st past (λ f. absurd (unfit bad f))))
          ]
        ]
      where
        here : get_elem? candidates j ≡ some node
        here = let zeroth : j + 0 ≡ j = omega arith in sym (rw zeroth at (at 0))

        unfit : fits specs s node ≡ false → ¬ Fit specs candidates s j
        unfit bad (node', e, ok) = cc here

        c1 :
            (st1 : Matching)
            → st1.spec_of_cand ≡ st.spec_of_cand
            → st1.cand_of_spec ≡ st.cand_of_spec
            → Consistent specs candidates st1
        c1 st1 soc cos = record {
          back = λ i k e. rw cos (c.back i k (rw (← soc) e));
          forth = λ i k e. rw soc (c.forth i k (rw (← cos) e));
          fit = λ i k e. c.fit i k (rw (← cos) e);
        }

        b1 :
            (st1 : Matching)
            → st1.spec_of_cand ≡ st.spec_of_cand
            → ((k : ℕ) → st.seen k ≡ true → st1.seen k ≡ true)
            → Behind specs candidates s st1
        b1 st1 soc mono k e = mono k (b k (rw (← soc) e))

        f1 :
            (st1 : Matching)
            → ((k : ℕ) → st.seen k ≡ true → st1.seen k ≡ true)
            → unseen (length candidates) st1.seen < suc fuel
        f1 st1 mono = omega (arith, unseen_mono (length candidates) st.seen st1.seen mono)

        shift : (k : ℕ) → get_elem? rest k ≡ get_elem? candidates (suc j + k)
        shift k = let moved : suc j + k ≡ j + suc k = omega arith in rw moved (at (suc k))

  -- With fuel above the number of unseen candidates the search returns, and its result is right.
  pub augment_outcome :
      (fuel s : ℕ) (st : Matching)
      → Consistent specs candidates st
      → Behind specs candidates s st
      → unseen (length candidates) st.seen < fuel
      → Outcome s st (augment_spec specs candidates fuel s st)
  unfolding augment_spec
  augment_outcome zero s st c b h = absurd (omega arith)
  augment_outcome (suc fuel) s st c b h =
      scan_outcome fuel (augment_spec specs candidates fuel) (augment_outcome fuel) s 0 candidates
        st (λ k. let start : 0 + k ≡ k = omega arith in rw start) c b h
        (λ k lt f. absurd (omega arith))

-- ===== src/Minimize.antt =====
-- ddmin of linearize/linearize.go, which Minimize shrinks a history with. The check that it calls
-- is bounded by time, so its answers are those of an oracle, by the number of the check; so is
-- whether the context has ended by then. The two loops take fuel.
use torx.Base.{
  ℕ, zero, suc, ◌+◌, ◌-◌, ◌/◌, ◌≤◌, ◌<◌, ◌≡◌, ◌⊎◌, inl, inr, refl, sym, subst, ◌∙◌, List, ◌++◌,
  Option, none, some, Bool, true, false, not, ◌&&◌, ◌||◌, length, length-append, length-take,
  length-drop, take, drop, if◌then◌else◌, ◌==◌, ltb, min, max, arith, Bool-cases,
}

pub record Progress : Type 0 where
  pub set : List ℕ
  pub removed : Bool
  pub checks : ℕ

module _ (illegal : ℕ → List ℕ → Bool) (ended : ℕ → Bool) where
  abbrev pub without : ℕ → ℕ → List ℕ → List ℕ
  without start chunk set = take start set ++ drop (min (start + chunk) (length set)) set

  -- The inner loop, over the chunks of one size.
  unfoldable pub chunks : ℕ → ℕ → ℕ → Progress → Option Progress
  chunks zero chunk start p = none
  chunks (suc fuel) chunk start p =
      let rest = without start chunk p.set in
      let shrunk =
        chunks fuel chunk start (record { set = rest; removed = true; checks = suc p.checks }) in
      let on =
        chunks fuel chunk (min (start + chunk) (length p.set))
          (record p { checks = suc p.checks }) in
      if ltb start (length p.set) && not (ended p.checks)
      then (if illegal p.checks rest then shrunk else on)
      else some p

  abbrev pub next_chunk : ℕ → ℕ
  next_chunk chunk = if ltb 1 chunk then chunk / 2 else chunk

  -- The outer loop.
  unfoldable pub rounds : ℕ → ℕ → List ℕ → ℕ → Option (List ℕ)
  unfolding chunks
  rounds zero chunk set n = none
  rounds (suc fuel) chunk set n =
      if length set == 0
      then some set
      else elim (chunks (suc (length set)) chunk 0
          (record { set = set; removed = false; checks = n })) [
            | none ↦ none
            | some p ↦
                if ended p.checks || (chunk == 1 && not p.removed)
                then some p.set
                else rounds fuel (next_chunk chunk) p.set p.checks
          ]

  -- `checks` made before are counted in the number of the first.
  unfoldable pub ddmin : List ℕ → ℕ → Option (List ℕ)
  unfolding rounds
  ddmin set n = rounds (suc (length set + max (length set / 2) 1)) (max (length set / 2) 1) set n

  length-without :
      (start chunk : ℕ) (set : List ℕ)
      → start ≤ length set
      → length (without start chunk set) ≡ start + (length set - min (start + chunk) (length set))
  length-without start chunk set h = omega (
    arith,
    length-append (take start set) (drop (min (start + chunk) (length set)) set),
    length-take start set,
    length-drop (min (start + chunk) (length set)) set,
  )

  -- What a pass leaves: no more than it began with, fewer if it removed any, and if so it is a set
  -- that a check called illegal.
  abbrev Left : List ℕ → Bool → Progress → Type 0
  Left set before p =
      (length p.set ≤ length set)
      × ((p.removed ≡ before) ⊎ (length p.set < length set))
      × ((p.set ≡ set) ⊎ ((k : ℕ) × (illegal k p.set ≡ true)))

  chunks-Left :
      (fuel chunk start : ℕ) (p : Progress)
      → 0 < chunk
      → start ≤ length p.set
      → length p.set - start < fuel
      → (q : Progress) × (chunks fuel chunk start p ≡ some q) × Left p.set p.removed q
  unfolding chunks
  chunks-Left zero chunk start p c h f = absurd (omega arith)
  chunks-Left (suc fuel) chunk start p c h f =
      elim (Bool-cases (ltb start (length p.set) && not (ended p.checks))) [
        | inr stop ↦ (p, rw (stop, chunks) refl, (omega arith, inl refl, inl refl))
        | inl more ↦ elim (Bool-cases (illegal p.checks (without start chunk p.set))) [
          | inr legal ↦
              let (q, e, left) =
                chunks-Left fuel chunk (min (start + chunk) (length p.set))
                  (record p { checks = suc p.checks }) c (ground arith) (ground arith) in
              (q, rw (more, legal, chunks) e, left)
          | inl bad ↦
              let inside : start < length p.set = ground arith in
              let fewer = length-without start chunk p.set (omega arith) in
              let (q, e, (le, less, found)) =
                chunks-Left fuel chunk start
                  (record {
                    set = without start chunk p.set;
                    removed = true;
                    checks = suc p.checks;
                  })
                  c (omega arith) (omega arith) in
              (
                q,
                rw (more, bad, chunks) e,
                (
                  omega arith,
                  inr (omega arith),
                  elim found [
                    | inl same ↦
                        inr (p.checks, subst (λ s. illegal p.checks s ≡ true) (sym same) bad)
                    | inr at ↦ inr at
                  ],
                ),
              )
        ]
      ]

  rounds-Left :
      (fuel chunk : ℕ) (set : List ℕ) (n : ℕ)
      → 0 < chunk
      → length set + chunk < fuel
      → (r : List ℕ) × (rounds fuel chunk set n ≡ some r)
        × (length r ≤ length set)
        × ((r ≡ set) ⊎ ((k : ℕ) × (illegal k r ≡ true)))
  unfolding rounds
  rounds-Left zero chunk set n c f = absurd (omega arith)
  rounds-Left (suc fuel) chunk set n c f = elim (Bool-cases (length set == 0)) [
    | inl empty ↦ (set, rw (empty, rounds) refl, omega arith, inl refl)
    | inr some_left ↦
        let (p, e, (le, less, found)) =
          chunks-Left (suc (length set)) chunk 0 (record { set = set; removed = false; checks = n })
            c (omega arith) (omega arith) in
        elim (Bool-cases (ended p.checks || (chunk == 1 && not p.removed))) [
          | inl stop ↦ (p.set, rw (some_left, e, stop, rounds) refl, le, found)
          | inr more ↦
              let falls : length p.set + next_chunk chunk < length set + chunk = elim less [
                | inl same ↦ ground arith
                | inr fewer ↦ ground arith
              ] in
              let (r, e', le', found') =
                rounds-Left fuel (next_chunk chunk) p.set p.checks (ground arith) (omega arith) in
              (
                r,
                rw (some_left, e, more, rounds) e',
                omega arith,
                elim found' [
                  | inl same ↦ elim found [
                    | inl as_before ↦ inl (same ∙ as_before)
                    | inr (k, at) ↦ inr (k, subst (λ s. illegal k s ≡ true) (sym same) at)
                  ]
                  | inr at ↦ inr at
                ],
              )
        ]
  ]

  -- ddmin ends, whatever the checks answer and whenever the context does, with a set no larger than
  -- the one that it was given: that one itself, or one that a check called illegal.
  pub ddmin_lem :
      (set : List ℕ) (n : ℕ)
      → (r : List ℕ) × (ddmin set n ≡ some r)
        × (length r ≤ length set)
        × ((r ≡ set) ⊎ ((k : ℕ) × (illegal k r ≡ true)))
  unfolding ddmin
  ddmin_lem set n =
      rounds-Left (suc (length set + max (length set / 2) 1)) (max (length set / 2) 1) set n
        (omega arith) (omega arith)

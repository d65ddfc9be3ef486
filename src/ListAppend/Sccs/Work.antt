-- ===== src/ListAppend/Sccs/Work.antt =====
-- listappend/listappend.go: what is left for Tarjan's loop, which each round lowers, and the numbers,
-- which stay.
use torx.Base.{
  ℕ, zero, suc, ◌+◌, ◌-◌, ◌≡◌, ◌≤◌, ◌<◌, refl, sym, subst, ap, ◌∙◌, inl, inr, List, [], ◌∷◌, Option,
  none, some, Bool, length, get_elem?, set, get_elem?_of_lt, get_elem?-lt, arith, Bool-cases,
  Option-cases,
}
use torx.ListAppend.Search.{Kind}
use torx.ListAppend.{Edge}
use torx.ListAppend.Sccs.{
  Tarjan, index_of, low_of, is_on, visit, is_index, follow, close, return_to, round,
}
use torx.ListAppend.Sccs.Calls.{Numbered}
use torx.ListAppend.Sccs.Visits.{unnumbered, index_of-visit_other}

module _ (adj : ℕ → List Edge) (ok : Kind → Bool) (n base : ℕ) where
  -- A round for each vertex without a number, from `v` on, and for each of its edges.
  abbrev pub unmet : ℕ → List (Option ℕ) → ℕ
  unmet v [] = 0
  unmet v (none ∷ is) = suc (length (adj v)) + unmet (suc v) is
  unmet v (some i ∷ is) = unmet (suc v) is

  abbrev pub unlooked : List (ℕ × ℕ) → ℕ
  unlooked [] = 0
  unlooked ((v, e) ∷ frames) = suc (length (adj v) - e) + unlooked frames

  abbrev pub work : Tarjan → ℕ
  work s = unmet 0 s.index + unlooked s.call

  unmet-set :
      (v w i : ℕ) (is : List (Option ℕ))
      → get_elem? is w ≡ some none
      → unmet v (set is w (some i)) + suc (length (adj (v + w))) ≡ unmet v is
  unmet-set v w i [] e = cc
  unmet-set v zero i (none ∷ is) e = rw (plus_zero v) (omega arith)
    where
      plus_zero : (v : ℕ) → v + 0 ≡ v
      plus_zero v = omega arith
  unmet-set v zero i (some j ∷ is) e = cc
  unmet-set v (suc w) i (none ∷ is) e =
      let later = unmet-set (suc v) w i is e in rw (plus_suc v w) (omega (arith, later))
    where
      plus_suc : (v w : ℕ) → v + suc w ≡ suc v + w
      plus_suc v w = omega arith
  unmet-set v (suc w) i (some j ∷ is) e =
      let later = unmet-set (suc v) w i is e in rw (plus_suc v w) (omega (arith, later))
    where
      plus_suc : (v w : ℕ) → v + suc w ≡ suc v + w
      plus_suc v w = omega arith

  free_slot :
      (s : Tarjan) (w : ℕ)
      → w < length s.index
      → index_of s w ≡ none
      → get_elem? s.index w ≡ some none
  free_slot s w lt free =
      let (o, e) = get_elem?_of_lt s.index w lt in
      let same : index_of s w ≡ o = rw (index_of, e) refl in e ∙ ap some (sym same ∙ free)

  pub work-visit :
      (w : ℕ) (s : Tarjan) → w < length s.index → index_of s w ≡ none → work (visit w s) ≡ work s
  unfolding visit
  work-visit w s lt free =
      let less = unmet-set 0 w s.next s.index (free_slot s w lt free) in
      let at : 0 + w ≡ w = omega arith in
      let less' =
        subst (λ z. unmet 0 (set s.index w (some s.next)) + suc (length (adj z)) ≡ unmet 0 s.index)
          at less in
      omega (arith, less')

  work-follow :
      (v w : ℕ) (k : Kind) (s : Tarjan)
      → w < length s.index
      → work (follow adj ok v (w, k) s) ≡ work s
  unfolding follow
  work-follow v w k s lt = elim (Bool-cases (ok k)) [
    | inr skip ↦ rw (follow, skip) refl
    | inl on ↦ elim (Option-cases (index_of s w)) [
      | inl free ↦ rw (follow, on, free) (work-visit w s lt free)
      | inr (i, old) ↦ elim (Bool-cases (is_on s w)) [
        | inl held ↦ rw (follow, on, old, held) refl
        | inr gone ↦ rw (follow, on, old, gone) refl
      ]
    ]
  ]

  follow_number :
      (v w : ℕ) (k : Kind) (s : Tarjan) (y i : ℕ)
      → Numbered s y i
      → Numbered (follow adj ok v (w, k) s) y i
  unfolding follow
  follow_number v w k s y i at = elim (Bool-cases (ok k)) [
    | inr skip ↦ rw (follow, skip) at
    | inl on ↦ elim (Option-cases (index_of s w)) [
      | inl free ↦
          rw (follow, on, free)
            (index_of-visit_other adj ok n base w y s (unnumbered adj ok n base s w y i free at)
              ∙ at)
      | inr (j, old) ↦ elim (Bool-cases (is_on s w)) [
        | inl held ↦ rw (follow, on, old, held) at
        | inr gone ↦ rw (follow, on, old, gone) at
      ]
    ]
  ]

  work-close :
      (v : ℕ) (s : Tarjan)
      → (work (close adj ok v s) ≡ work s) × ((close adj ok v s).index ≡ s.index)
  unfolding close
  work-close v s = elim (Bool-cases (is_index (index_of s v) (low_of s v))) [
    | inl e ↦ rw (close, e) (refl, refl)
    | inr e ↦ rw (close, e) (refl, refl)
  ]

  return_work :
      (v : ℕ) (frames : List (ℕ × ℕ)) (s : Tarjan)
      → (work (return_to adj ok v frames s) ≡ work s)
        × ((return_to adj ok v frames s).index ≡ s.index)
  return_work v [] s = (refl, refl)
  return_work v ((p, e) ∷ frames) s = (refl, refl)

  -- A round lowers the work.
  pub work-round :
      (v e : ℕ) (frames : List (ℕ × ℕ)) (s : Tarjan)
      → ((x y : ℕ) (j : Kind) (p : ℕ) → get_elem? (adj x) p ≡ some (y, j) → y < length s.index)
      → s.call ≡ (v, e) ∷ frames
      → suc (work (round adj ok (v, e) frames s)) ≤ work s
  unfolding round
  work-round v e frames s bound at = elim (Option-cases (get_elem? (adj v) e)) [
    | inr ((w, k), here) ↦
        let lt = get_elem?-lt (adj v) e here in
        let moved =
          work-follow v w k (record s { call = (v, suc e) ∷ frames }) (bound v w k e here) in
        let left : unlooked s.call ≡ suc (length (adj v) - e) + unlooked frames = ap unlooked at in
        rw (round, here) (omega (arith, moved, left, lt))
    | inl done ↦
        let s' : Tarjan = record s { call = frames } in
        let (a, _) = work-close v (return_to adj ok v frames s') in
        let (b, _) = return_work v frames s' in
        let left : unlooked s.call ≡ suc (length (adj v) - e) + unlooked frames = ap unlooked at in
        rw (round, done) (omega (arith, a, b, left))
  ]

  pub round_number :
      (v e : ℕ) (frames : List (ℕ × ℕ)) (s : Tarjan) (y i : ℕ)
      → Numbered s y i
      → Numbered (round adj ok (v, e) frames s) y i
  unfolding round
  round_number v e frames s y i at = elim (Option-cases (get_elem? (adj v) e)) [
    | inr ((w, k), here) ↦
        rw (round, here) (follow_number v w k (record s { call = (v, suc e) ∷ frames }) y i at)
    | inl done ↦
        let s' : Tarjan = record s { call = frames } in
        let (_, a) = work-close v (return_to adj ok v frames s') in
        let (_, b) = return_work v frames s' in
        let same : index_of (close adj ok v (return_to adj ok v frames s')) y ≡ index_of s y =
          rw (index_of, a ∙ b) refl in
        rw (round, done) (same ∙ at)
  ]

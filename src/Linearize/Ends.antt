-- ===== src/Linearize/Ends.antt =====
-- linearize/linearize.go: a measure on the variables of CheckWithin that each pass lowers.
use torx.Base.{
  ℕ, zero, suc, ◌+◌, ◌-◌, ◌≤◌, ◌<◌, ◌≡◌, ◌≢◌, inl, inr, refl, sym, ap, subst, ◌∙◌, List, [], ◌∷◌,
  ◌++◌, append-nil, some, Bool, true, false, ◌&&◌, length, get_elem?-lt, All, ◌==◌, arith,
  Bool-cases, Option-cases, ltb, ◌%◌, set,
}
use torx.Base.Int.{ℤ}
use torx.Linearize.{
  Op, Model, Entry, link, lift, group_size, Frame, Vars, Result, is_pending, bad_op?,
}
use torx.Linearize.Search.{
  Next, going, done, fault, skip, place, try_call, at_call, must_wait, remember, backtrack,
  at_return, at_entry, pass, search, begin, check_within, add, leave, outside_group, is_nil,
}
use torx.Linearize.History.{elem, Timed, returns_of, All-any}
use torx.Linearize.Sound.{calls_in, listed, head_of}
use torx.Linearize.Verdict.{Inv, Kept, begin-Inv, pass-Kept, add-same}

-- `spend c h`: 1, and `c` for each of `h` entries.
spend : ℕ → ℕ → ℕ
spend c zero = 1
spend c (suc h) = c + spend c h

-- Passes that are enough for a list of `e` entries.
pub cost : ℕ → ℕ
unfolding spend
cost zero = 1
cost (suc e) = spend (suc (cost e)) (suc e)

-- Passes that are enough for `h` entries of a list of `e`.
walk : ℕ → ℕ → ℕ
unfolding spend cost
walk e h = spend (suc (cost (e - 1))) h

walk-all : (e : ℕ) → walk e e ≡ cost e
unfolding walk cost spend
walk-all zero = refl
walk-all (suc e) =
    let back : suc e - 1 ≡ e = omega arith in ap (λ k. spend (suc (cost k)) (suc e)) back

walk-suc : (e h : ℕ) → walk e (suc h) ≡ suc (cost (e - 1)) + walk e h
unfolding walk spend
walk-suc e h = refl

walk-pos : (e h : ℕ) → 0 < walk e h
unfolding walk spend
walk-pos e zero = omega arith
walk-pos e (suc h) = omega arith

cost_mono : (d e : ℕ) → d ≤ e → cost d ≤ cost e
unfolding cost spend
cost_mono zero zero h = omega arith
cost_mono (suc d) zero h = absurd (omega arith)
cost_mono d (suc e) h = elim (Bool-cases (d == suc e)) [
  | inl t ↦ let same : d ≡ suc e = ground arith in rw same (omega arith)
  | inr t ↦ let rest = cost_mono d e (ground arith) in omega arith
]

length-lift : (i : ℕ) (xs : List Entry) → length (lift i xs) ≤ length xs
unfolding lift
length-lift i [] = omega arith
length-lift i (x ∷ xs) = ground (arith, length-lift i xs)

lift-shrinks :
    (before : List Entry) (en : Entry) (rest : List Entry)
    → length (lift en.op (before ++ en ∷ rest)) < length (before ++ en ∷ rest)
unfolding lift
lift-shrinks [] en rest = ground (arith, length-lift en.op rest)
lift-shrinks (x ∷ before) en rest = ground (arith, lift-shrinks before en rest)

load : {S : Type 0} → List (Frame S) → ℕ
unfolding walk
load [] = 0
load (f ∷ fs) = walk (length f.entries) (length f.next) + load fs

potential : {S : Type 0} → Vars S → ℕ
unfolding walk load
potential v = walk (length v.entries) (length v.here) + load v.stack

same_potential :
    {S : Type 0} (v w : Vars S)
    → w.here ≡ v.here
    → w.entries ≡ v.entries
    → w.stack ≡ v.stack
    → potential w ≡ potential v
unfolding potential
same_potential v w h e k = rw (h, e, k) refl

module _ {S I O : Type 0} (m : Model S I O) (eq : S → S → Bool) (hash : List Bool → ℕ)
    (cancelled : ℕ → Bool) (limit : ℕ) (ops : List (Op I O)) where
  abbrev Falls : ℕ → Next S → Type 0
  Falls n (going w) = potential w < n
  Falls n (done r) = Unit
  Falls n fault = true ≡ false

  skip-Falls :
      (v : Vars S) (en : Entry) (rest : List Entry)
      → v.here ≡ en ∷ rest
      → potential (skip m eq hash cancelled limit ops rest v) < potential v
  unfolding potential
  skip-Falls v en rest e = rw e (ground (arith, walk-suc (length v.entries) (length rest)))

  place-Falls :
      (v : Vars S) (en : Entry) (rest : List Entry) (o : Op I O) (s : S)
      → Inv m eq hash cancelled limit ops v
      → v.here ≡ en ∷ rest
      → potential (place m eq hash cancelled limit ops en.op o s rest v) < potential v
  unfolding potential place load
  place-Falls v en rest o s h e =
      let shrinks : length (lift en.op v.entries) < length v.entries =
        subst (λ l. length (lift en.op l) < length l) (sym (h.split ∙ ap (λ l. h.before ++ l) e))
          (lift-shrinks h.before en rest) in
      rw e (
        rw (walk-suc (length v.entries) (length rest), walk-all (length (lift en.op v.entries)))
          (let less =
              cost_mono (length (lift en.op v.entries)) (length v.entries - 1) (omega arith) in
            omega arith))

  try_call-Falls :
      (v : Vars S) (en : Entry) (rest : List Entry) (o : Op I O) (legal : Bool) (s : S)
      → Inv m eq hash cancelled limit ops v
      → v.here ≡ en ∷ rest
      → Falls (potential v) (try_call m eq hash cancelled limit ops en.op o (legal, s) rest v)
  unfolding try_call
  try_call-Falls v en rest o legal s h e =
      elim (Bool-cases (legal && is_pending o && eq s v.state)) [
        | inl t ↦ rw t (skip-Falls v en rest e)
        | inr t ↦ rw t (elim (Bool-cases legal) [
          | inr f ↦ rw f (skip-Falls v en rest e)
          | inl t' ↦ rw t' (elim (Option-cases (add eq hash (set v.linearized en.op true) s v)) [
            | inl n ↦ rw n (skip-Falls v en rest e)
            | inr (w, sm) ↦
                let (kept, same, st, en_eq, stack_eq) =
                  add-same m eq hash cancelled limit ops _ s v w sm h in
                rw sm (
                  let less = place-Falls w en rest o s kept (same ∙ e) in
                  subst (λ n. potential (place m eq hash cancelled limit ops en.op o s rest w) < n)
                    (same_potential v w same en_eq stack_eq) less)
          ])
        ])
      ]

  at_call-Falls :
      (v : Vars S) (en : Entry) (rest : List Entry) (o : Op I O)
      → Inv m eq hash cancelled limit ops v
      → v.here ≡ en ∷ rest
      → Falls (potential v) (at_call m eq hash cancelled limit ops en.op o rest v)
  unfolding at_call
  at_call-Falls v en rest o h e =
      elim (Bool-cases (outside_group m eq hash cancelled limit ops o v)) [
        | inl t ↦ rw t (skip-Falls v en rest e)
        | inr t ↦ rw t (elim (Bool-cases (must_wait m eq hash cancelled limit ops en.op v)) [
          | inl w ↦ rw w (skip-Falls v en rest e)
          | inr w ↦ rw w (try_call-Falls v en rest o _ _ h e)
        ])
      ]

  leave-same : (g : ℤ) (v : Vars S) → potential (leave (λ h. group_size h ops) g v) ≡ potential v
  unfolding leave potential
  leave-same g v = ground arith

  backtrack-Falls :
      (stack : List (Frame S)) (v : Vars S)
      → v.stack ≡ stack
      → Falls (potential v) (backtrack m eq hash cancelled limit ops stack v)
  unfolding backtrack potential load
  backtrack-Falls [] v e = tt
  backtrack-Falls (f ∷ fs) v e = rw e (ground (arith, walk-pos (length v.entries) (length v.here)))

  remember-same :
      (i : ℕ) (v : Vars S) → potential (remember m eq hash cancelled limit ops i v) ≡ potential v
  unfolding remember potential
  remember-same i v = ground arith

  at_return-Falls :
      (v : Vars S) (i : ℕ) (o : Op I O)
      → Falls (potential v) (at_return m eq hash cancelled limit ops i o v)
  unfolding at_return
  at_return-Falls v i o = elim (Bool-cases (is_pending o)) [
    | inl t ↦ rw t tt
    | inr t ↦ rw t (
        subst
          (λ n. Falls n (
            backtrack m eq hash cancelled limit ops
              (remember m eq hash cancelled limit ops i v).stack
              (remember m eq hash cancelled limit ops i v)))
          (remember-same i v) (backtrack-Falls _ (remember m eq hash cancelled limit ops i v) refl))
  ]

  -- A list that is not used up holds a return: the call of what it holds is not all that is left.
  no_end :
      (v : Vars S)
      → Inv m eq hash cancelled limit ops v
      → is_nil m eq hash cancelled limit ops v.entries ≡ false
      → v.here ≢ []
  no_end v h left e = absurd (let never = go v.entries refl in cc)
    where
      here : v.entries ≡ h.before
      here = h.split ∙ ap (λ r. h.before ++ r) e ∙ append-nil h.before

      calls : All (λ x. x.call ≡ true) v.entries
      calls = subst (All (λ x. x.call ≡ true)) (sym here) h.calls

      go : (xs : List Entry) → v.entries ≡ xs → true ≡ false
      go [] q = absurd (let nil = rw (q, is_nil) at left in cc)
      go (x ∷ xs) q =
          let l = listed m ops v.stack v.state v.entries h.stacked in
          let (o, at, _) : Timed ops x =
            head_of (Timed ops) [] x xs (subst (All (Timed ops)) q l.timed) in
          let free : elem x.op (calls_in v.stack) ≡ false =
            head_of (λ y. elem y.op (calls_in v.stack) ≡ false) [] x xs
              (subst (All (λ y. elem y.op (calls_in v.stack) ≡ false)) q l.fresh) in
          let (y, call, hit) =
            All-any (λ y. y.call ≡ true) (returns_of x.op) v.entries calls
              (l.returns x.op (get_elem?-lt ops x.op at) free) in
          absurd (ground arith)

  at_entry-Falls :
      (here : List Entry) (v : Vars S)
      → Inv m eq hash cancelled limit ops v
      → v.here ≡ here
      → here ≢ []
      → Falls (potential v) (at_entry m eq hash cancelled limit ops here v)
  unfolding at_entry
  at_entry-Falls [] v h e some_left = absurd (some_left refl)
  at_entry-Falls (en ∷ rest) v h e some_left =
      let l = listed m ops v.stack v.state v.entries h.stacked in
      let (o, at, _) : Timed ops en =
        head_of (Timed ops) h.before en rest
          (subst (All (Timed ops)) (h.split ∙ ap (λ r. h.before ++ r) e) l.timed) in
      rw (at, Falls)
        (elim (Bool-cases en.call) [
          | inl c ↦ rw c (at_call-Falls v en rest o h e)
          | inr c ↦ rw c (at_return-Falls v en.op o)
        ])

  ticked : (v : Vars S) → potential (record v { steps = suc v.steps }) ≡ potential v
  unfolding potential
  ticked v = refl

  pass-Falls :
      (v : Vars S)
      → Inv m eq hash cancelled limit ops v
      → Falls (potential v) (pass m eq hash cancelled limit ops v)
  unfolding pass
  pass-Falls v h = elim (Bool-cases (is_nil m eq hash cancelled limit ops v.entries)) [
    | inl t ↦ rw t tt
    | inr t ↦ rw t (elim (Bool-cases (suc v.steps % 4096 == 0 && cancelled (suc v.steps))) [
      | inl c ↦ rw c tt
      | inr c ↦ rw c (elim (Bool-cases (ltb 0 limit && ltb limit v.size)) [
        | inl l ↦ rw l tt
        | inr l ↦ rw l (
            subst
              (λ n.
                Falls n (
                  at_entry m eq hash cancelled limit ops v.here (record v { steps = suc v.steps })))
              (ticked v)
              (at_entry-Falls v.here (record v { steps = suc v.steps })
                (record {
                  stacked = h.stacked;
                  before = h.before;
                  split = h.split;
                  calls = h.calls;
                  best = h.best;
                })
                refl (no_end v h t)))
      ])
    ])
  ]

  search-ends :
      (fuel : ℕ) (v : Vars S)
      → Inv m eq hash cancelled limit ops v
      → potential v < fuel
      → (r : Result S) × (search m eq hash cancelled limit ops fuel v ≡ some r)
  unfolding search
  search-ends zero v h lt = absurd (omega arith)
  search-ends (suc fuel) v h lt =
      go (pass m eq hash cancelled limit ops v) refl (λ w. search-ends fuel w)
    where
      go :
          (n : Next S)
          → pass m eq hash cancelled limit ops v ≡ n
          → ((w : Vars S)
              → Inv m eq hash cancelled limit ops w
              → potential w < fuel
              → (r : Result S) × (search m eq hash cancelled limit ops fuel w ≡ some r))
          → (r : Result S) × (search m eq hash cancelled limit ops (suc fuel) v ≡ some r)
      go (going w) q later =
          let falls : potential w < potential v = subst (Falls (potential v)) q (pass-Falls v h) in
          let kept =
            subst (Kept m eq hash cancelled limit ops) q
              (pass-Kept m eq hash cancelled limit ops v h) in
          let (r, e) = later w kept (omega arith) in (r, rw (q, search) e)
      go (done r) q later = (r, rw (q, search) refl)
      go fault q later =
          absurd (let never : true ≡ false = subst (Falls (potential v)) q (pass-Falls v h) in cc)

  begin-potential : potential (begin m eq hash cancelled limit ops) ≡ cost (length (link ops))
  unfolding potential begin load
  begin-potential = let all = walk-all (length (link ops)) in omega arith

  -- CheckWithin ends within `cost` of the number of entries passes, and with a result, whatever
  -- its limit on the cache.
  pub check_within-total :
      (fuel : ℕ)
      → cost (length (link ops)) < fuel
      → (r : Result S) × (check_within m eq hash cancelled limit ops fuel ≡ some r)
  unfolding check_within
  check_within-total fuel enough = elim (Option-cases (bad_op? 0 ops)) [
    | inl n ↦
        rw (n, check_within)
          (search-ends fuel (begin m eq hash cancelled limit ops)
            (begin-Inv m eq hash cancelled limit ops) (rw begin-potential enough))
    | inr (i, b) ↦ rw (b, check_within) (_, refl)
  ]

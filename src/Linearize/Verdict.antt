-- ===== src/Linearize/Verdict.antt =====
-- linearize/linearize.go: what each branch of the loop of CheckWithin does to the calls placed.
use torx.Base.{
  ℕ, zero, suc, ◌≡◌, inl, inr, refl, sym, ap, subst, ◌∙◌, List, [], ◌∷◌, ◌++◌, append_assoc, none,
  some, Bool, true, false, ◌&&◌, any, length, get_elem?, get_elem?-lt, All, All-append, ◌==◌, arith,
  Bool-cases, Option-cases, ltb, ◌%◌, set,
}
use torx.Base.Int.{ℤ, ltb_ℤ, eqb_ℤ_iff}
use torx.Linearize.{
  Op, Model, Entry, group_of, group_size, Frame, Vars, Result, ok, illegal, is_pending, pending,
  bad_op?,
}
use torx.Linearize.Search.{
  Next, going, done, fault, skip, place, try_call, at_call, must_wait, remember, backtrack,
  at_return, at_entry, pass, search, begin, check_within, add, enter, leave, outside_group, is_nil,
  known, deeper, group_at,
}
use torx.Linearize.History.{Linearizes, elem, Timed, returns_of}
use torx.Linearize.Sound.{Stacked, calls_in, listed, settled, linearized, stamp, head_of}

enter-best : {S : Type 0} (size_of : ℤ → ℕ) (g : ℤ) (v : Vars S) → (enter size_of g v).best ≡ v.best
unfolding enter
enter-best size_of g v = ground arith

leave-best : {S : Type 0} (size_of : ℤ → ℕ) (g : ℤ) (v : Vars S) → (leave size_of g v).best ≡ v.best
unfolding leave
leave-best size_of g v = ground arith

module _ {S I O : Type 0} (m : Model S I O) (eq : S → S → Bool) (hash : List Bool → ℕ)
    (cancelled : ℕ → Bool) (limit : ℕ) (ops : List (Op I O)) where
  -- Between two passes.
  pub record Inv (v : Vars S) : Type 0 where
    pub stacked : Stacked m ops v.stack v.state v.entries
    pub before : List Entry
    pub split : v.entries ≡ before ++ v.here
    pub calls : All (λ x. x.call ≡ true) before
    pub best : v.best.outcome ≡ illegal

  -- A linearization of all that returned.
  abbrev pub Backed : Type 0
  Backed =
      (order : List ℕ) × (s : S) × Linearizes m ops order s
      × ((a : ℕ) (p : Op I O)
          → get_elem? ops a ≡ some p
          → ltb_ℤ p.return pending ≡ true
          → elem a order ≡ true)

  abbrev pub Kept : Next S → Type 0
  Kept (going v) = Inv v
  Kept (done r) = r.outcome ≡ ok → Backed
  Kept fault = Unit

  pub begin-Inv : Inv (begin m eq hash cancelled limit ops)
  unfolding begin
  begin-Inv = record { stacked = (refl, refl); before = []; split = refl; calls = tt; best = refl }

  skip-Inv :
      (v : Vars S) (en : Entry) (rest : List Entry)
      → Inv v
      → v.here ≡ en ∷ rest
      → en.call ≡ true
      → Inv (skip m eq hash cancelled limit ops rest v)
  skip-Inv v en rest h e c = record {
    stacked = h.stacked;
    before = h.before ++ en ∷ [];
    split = h.split ∙ ap (λ l. h.before ++ l) e ∙ sym (append_assoc h.before (en ∷ []) rest);
    calls = All-append (λ x. x.call ≡ true) h.before (en ∷ []) h.calls (c, tt);
    best = h.best;
  }

  place-Inv :
      (v : Vars S) (en : Entry) (rest : List Entry) (o : Op I O) (s : S)
      → Inv v
      → v.here ≡ en ∷ rest
      → en.call ≡ true
      → get_elem? ops en.op ≡ some o
      → m.step v.state o.input o.output ≡ (true, s)
      → Inv (place m eq hash cancelled limit ops en.op o s rest v)
  unfolding place
  place-Inv v en rest o s h e c at legal = record {
    stacked = (
      h.stacked,
      record {
        op = o;
        op_at = at;
        entry = en;
        is_call = c;
        of_op = refl;
        before = h.before;
        split = h.split ∙ ap (λ l. h.before ++ l) e;
        calls = h.calls;
        legal = legal;
        lifted = refl;
      },
    );
    before = [];
    split = refl;
    calls = tt;
    best = ap (λ b. b.outcome) (enter-best (λ g. group_size g ops) (group_of o) v) ∙ h.best;
  }

  pub add-same :
      (bits : List Bool) (s : S) (v w : Vars S)
      → add eq hash bits s v ≡ some w
      → Inv v
      → Inv w
        × (w.here ≡ v.here)
        × (w.state ≡ v.state)
        × (w.entries ≡ v.entries)
        × (w.stack ≡ v.stack)
  unfolding add
  add-same bits s v w e h = elim (Bool-cases (known eq hash (v.seen (hash bits)) bits s)) [
    | inl k ↦ absurd (ground arith)
    | inr k ↦
        let fresh = rw k at e in
        subst
          (λ u.
            Inv u
            × (u.here ≡ v.here)
            × (u.state ≡ v.state)
            × (u.entries ≡ v.entries)
            × (u.stack ≡ v.stack))
          (ap (λ u. elim u [ none ↦ v | some u' ↦ u' ]) fresh)
          (
            record {
              stacked = h.stacked;
              before = h.before;
              split = h.split;
              calls = h.calls;
              best = h.best;
            },
            refl,
            refl,
            refl,
            refl,
          )
  ]

  try_call-Kept :
      (v : Vars S) (en : Entry) (rest : List Entry) (o : Op I O) (legal : Bool) (s : S)
      → Inv v
      → v.here ≡ en ∷ rest
      → en.call ≡ true
      → get_elem? ops en.op ≡ some o
      → m.step v.state o.input o.output ≡ (legal, s)
      → Kept (try_call m eq hash cancelled limit ops en.op o (legal, s) rest v)
  unfolding try_call
  try_call-Kept v en rest o legal s h e c at step =
      elim (Bool-cases (legal && is_pending o && eq s v.state)) [
        | inl t ↦ rw t (skip-Inv v en rest h e c)
        | inr t ↦ rw t (elim (Bool-cases legal) [
          | inr f ↦ rw f (skip-Inv v en rest h e c)
          | inl t' ↦ rw t' (elim (Option-cases (add eq hash (set v.linearized en.op true) s v)) [
            | inl n ↦ rw n (skip-Inv v en rest h e c)
            | inr (w, sm) ↦
                let (kept, same, st, _, _) = add-same _ s v w sm h in
                rw sm (
                  place-Inv w en rest o s kept (same ∙ e) c at
                    (subst (λ z. m.step z o.input o.output ≡ (true, s)) (sym st) (rw t' at step)))
          ])
        ])
      ]

  at_call-Kept :
      (v : Vars S) (en : Entry) (rest : List Entry) (o : Op I O)
      → Inv v
      → v.here ≡ en ∷ rest
      → en.call ≡ true
      → get_elem? ops en.op ≡ some o
      → Kept (at_call m eq hash cancelled limit ops en.op o rest v)
  unfolding at_call
  at_call-Kept v en rest o h e c at =
      elim (Bool-cases (outside_group m eq hash cancelled limit ops o v)) [
        | inl t ↦ rw t (skip-Inv v en rest h e c)
        | inr t ↦ rw t (elim (Bool-cases (must_wait m eq hash cancelled limit ops en.op v)) [
          | inl w ↦ rw w (skip-Inv v en rest h e c)
          | inr w ↦ rw w (try_call-Kept v en rest o _ _ h e c at refl)
        ])
      ]

  remember-Inv : (i : ℕ) (v : Vars S) → Inv v → Inv (remember m eq hash cancelled limit ops i v)
  unfolding remember
  remember-Inv i v h =
      elim (Bool-cases (deeper m eq hash cancelled limit ops (length v.stack) v.best_depth)) [
        | inl t ↦ rw t (record {
          stacked = h.stacked;
          before = h.before;
          split = h.split;
          calls = h.calls;
          best = h.best;
        })
        | inr t ↦ rw t h
      ]

  backtrack-Kept :
      (stack : List (Frame S)) (v : Vars S)
      → Inv v
      → v.stack ≡ stack
      → Kept (backtrack m eq hash cancelled limit ops stack v)
  unfolding backtrack
  backtrack-Kept [] v h e = λ o. absurd (ground (arith, h.best))
  backtrack-Kept (f ∷ fs) v h e =
      let (below, p) : Stacked m ops (f ∷ fs) v.state v.entries =
        subst (λ st. Stacked m ops st v.state v.entries) e h.stacked in
      record {
        stacked = below;
        before = p.before ++ p.entry ∷ [];
        split = p.split ∙ sym (append_assoc p.before (p.entry ∷ []) f.next);
        calls = All-append (λ x. x.call ≡ true) p.before (p.entry ∷ []) p.calls (p.is_call, tt);
        best =
            ap (λ b. b.outcome)
              (leave-best (λ g. group_size g ops) (group_at m eq hash cancelled limit ops f.call) v)
            ∙ h.best;
      }

  backed :
      (v : Vars S)
      → Inv v
      → ((a : ℕ) (p : Op I O)
          → get_elem? ops a ≡ some p
          → ltb_ℤ p.return pending ≡ true
          → elem a (calls_in v.stack) ≡ true)
      → Backed
  backed v h all =
      (calls_in v.stack, v.state, linearized m ops v.stack v.state v.entries h.stacked, all)

  at_return-Kept :
      (v : Vars S) (en : Entry) (rest : List Entry) (o : Op I O)
      → Inv v
      → v.here ≡ en ∷ rest
      → en.call ≡ false
      → get_elem? ops en.op ≡ some o
      → Kept (at_return m eq hash cancelled limit ops en.op o v)
  unfolding at_return
  at_return-Kept v en rest o h e c at = elim (Bool-cases (is_pending o)) [
    | inr t ↦ rw t (
        backtrack-Kept _ (remember m eq hash cancelled limit ops en.op v) (remember-Inv en.op v h)
          refl)
    | inl t ↦ rw t (λ _.
        let l = listed m ops v.stack v.state v.entries h.stacked in
        let split = h.split ∙ ap (λ r. h.before ++ r) e in
        let timed : Timed ops en =
          head_of (Timed ops) h.before en rest (subst (All (Timed ops)) split l.timed) in
        let at_end : en.time ≡ pending =
          rw c at (stamp m ops en en.op o timed refl at) ∙ (eqb_ℤ_iff o.return pending).0 t in
        backed v h (λ a p at' lt.
          settled m ops (calls_in v.stack) v.entries h.before rest en a p l split h.calls at'
            (subst (λ z. ltb_ℤ p.return z ≡ true) (sym at_end) lt)))
  ]

  at_entry-Kept :
      (here : List Entry) (v : Vars S)
      → Inv v
      → v.here ≡ here
      → Kept (at_entry m eq hash cancelled limit ops here v)
  unfolding at_entry
  at_entry-Kept [] v h e = tt
  at_entry-Kept (en ∷ rest) v h e = elim (Option-cases (get_elem? ops en.op)) [
    | inl n ↦ rw (n, Kept) tt
    | inr (o, at) ↦
        rw (at, Kept)
          (elim (Bool-cases en.call) [
            | inl c ↦ rw c (at_call-Kept v en rest o h e c at)
            | inr c ↦ rw c (at_return-Kept v en rest o h e c at)
          ])
  ]

  none_left :
      (a : ℕ) (xs : List Entry)
      → is_nil m eq hash cancelled limit ops xs ≡ true
      → any (returns_of a) xs ≡ false
  none_left a [] h = refl
  none_left a (x ∷ xs) h = absurd (ground arith)

  -- No entry is left, so every operation has been taken out.
  ended :
      (v : Vars S)
      → Inv v
      → is_nil m eq hash cancelled limit ops v.entries ≡ true
      → (a : ℕ) (p : Op I O) → get_elem? ops a ≡ some p
      → ltb_ℤ p.return pending ≡ true
      → elem a (calls_in v.stack) ≡ true
  ended v h t a p at lt = elim (Bool-cases (elem a (calls_in v.stack))) [
    | inl there ↦ there
    | inr missing ↦
        let found =
          (listed m ops v.stack v.state v.entries h.stacked).returns a (get_elem?-lt ops a at)
            missing in
        absurd (ground (arith, none_left a v.entries t))
  ]

  pub pass-Kept : (v : Vars S) → Inv v → Kept (pass m eq hash cancelled limit ops v)
  unfolding pass
  pass-Kept v h = elim (Bool-cases (is_nil m eq hash cancelled limit ops v.entries)) [
    | inl t ↦ rw t (λ _. backed v h (ended v h t))
    | inr t ↦ rw t (elim (Bool-cases (suc v.steps % 4096 == 0 && cancelled (suc v.steps))) [
      | inl c ↦ rw c (λ o. absurd (ground arith))
      | inr c ↦ rw c (elim (Bool-cases (ltb 0 limit && ltb limit v.size)) [
        | inl l ↦ rw l (λ o. absurd (ground arith))
        | inr l ↦ rw l (
            at_entry-Kept v.here (record v { steps = suc v.steps })
              (record {
                stacked = h.stacked;
                before = h.before;
                split = h.split;
                calls = h.calls;
                best = h.best;
              })
              refl)
      ])
    ])
  ]

  search-Kept :
      (fuel : ℕ) (v : Vars S) (r : Result S)
      → Inv v
      → search m eq hash cancelled limit ops fuel v ≡ some r
      → r.outcome ≡ ok
      → Backed
  unfolding search
  search-Kept zero v r h e o = absurd (ground arith)
  search-Kept (suc fuel) v r h e o =
      go (pass m eq hash cancelled limit ops v) refl (λ w. search-Kept fuel w r)
    where
      go :
          (n : Next S)
          → pass m eq hash cancelled limit ops v ≡ n
          → ((w : Vars S)
              → Inv w
              → search m eq hash cancelled limit ops fuel w ≡ some r
              → r.outcome ≡ ok
              → Backed)
          → Backed
      go (going w) q later = later w (subst Kept q (pass-Kept v h)) (rw (q, search) at e) o
      go (done r') q later =
          let same : r' ≡ r = ap (λ u. elim u [ none ↦ r' | some x ↦ x ]) (rw (q, search) at e) in
          subst Kept q (pass-Kept v h) (rw same o)
      go fault q later = absurd (let e' = rw (q, search) at e in ground arith)

  -- When CheckWithin answers Ok, there is an order of operations that is legal for the model
  -- from its initial state, uses no operation twice, puts every operation behind all that
  -- returned before it was called, and holds every operation that returned.
  pub check_within-ok :
      (fuel : ℕ) (r : Result S)
      → check_within m eq hash cancelled limit ops fuel ≡ some r
      → r.outcome ≡ ok
      → Backed
  unfolding check_within
  check_within-ok fuel r e o = elim (Option-cases (bad_op? 0 ops)) [
    | inl n ↦
        search-Kept fuel (begin m eq hash cancelled limit ops) r begin-Inv
          (rw (n, check_within) at e) o
    | inr (i, b) ↦ absurd (
        let e' = rw (b, check_within) at e in
        ground (arith, ap (λ u. elim u [ none ↦ ok | some x ↦ x.outcome ]) e'))
  ]

-- ===== src/Linearize/Sound.antt =====
-- linearize/linearize.go: the calls placed by CheckWithin, as an order of operations.
use torx.Base.{
  ℕ, ◌<◌, ◌≡◌, ◌⊎◌, inl, inr, refl, sym, subst, ◌∙◌, List, [], ◌∷◌, ◌++◌, some, Bool, true, false,
  any, select, length, get_elem?, All, if◌then◌else◌, ◌==◌, arith, Bool-cases, get_elem?-lt,
}
use torx.Base.Int.{ltb_ℤ, ◌≤ℤ◌}
use torx.Linearize.{Op, Model, Entry, link, lift, Frame}
use torx.Linearize.History.{
  Linearizes, elem, NonDec, Timed, returns_of, link-NonDec, link-Timed, link-returns, All-any,
}

select-All :
    (P : Entry → Type 0) (test : Entry → Bool) (xs : List Entry) → All P xs → All P (select test xs)
select-All P test [] h = tt
select-All P test (x ∷ xs) h = elim (Bool-cases (test x)) [
  | inl e ↦ rw e (h.0, select-All P test xs h.1)
  | inr e ↦ rw e (select-All P test xs h.1)
]

select-NonDec : (test : Entry → Bool) (xs : List Entry) → NonDec xs → NonDec (select test xs)
select-NonDec test [] h = tt
select-NonDec test (x ∷ xs) h = elim (Bool-cases (test x)) [
  | inl e ↦ rw e (select-All (λ y. x.time ≤ℤ y.time) test xs h.0, select-NonDec test xs h.1)
  | inr e ↦ rw e (select-NonDec test xs h.1)
]

-- What follows an entry in time order is a call, or no earlier: if calls alone stand before it.
abbrev pub NotBefore : Entry → Entry → Type 0
NotBefore en x = (x.call ≡ true) ⊎ (en.time ≤ℤ x.time)

tail_of :
    (before : List Entry) (en : Entry) (rest : List Entry)
    → All (λ x. x.call ≡ true) before
    → NonDec (before ++ en ∷ rest)
    → All (NotBefore en) (before ++ en ∷ rest)
tail_of [] en rest c h = (inr (omega arith), weaken rest h.0)
  where
    weaken : (xs : List Entry) → All (λ y. en.time ≤ℤ y.time) xs → All (NotBefore en) xs
    weaken [] q = tt
    weaken (x ∷ xs) q = (inr q.0, weaken xs q.1)
tail_of (x ∷ before) en rest c h = (inl c.0, tail_of before en rest c.1 h.1)

pub head_of :
    (P : Entry → Type 0) (before : List Entry) (en : Entry) (rest : List Entry)
    → All P (before ++ en ∷ rest)
    → P en
head_of P [] en rest h = h.0
head_of P (x ∷ before) en rest h = head_of P before en rest h.1

abbrev pub calls_in : {S : Type 0} → List (Frame S) → List ℕ
calls_in [] = []
calls_in (f ∷ fs) = f.call ∷ calls_in fs

any-lift :
    (a i : ℕ) (xs : List Entry)
    → (i == a) ≡ false
    → any (returns_of a) (lift i xs) ≡ any (returns_of a) xs
unfolding lift
any-lift a i [] h = refl
any-lift a i (x ∷ xs) h = ground (arith, any-lift a i xs h)

lift-other : (i : ℕ) (xs : List Entry) → All (λ x. (x.op == i) ≡ false) (lift i xs)
unfolding lift
lift-other i [] = tt
lift-other i (x ∷ xs) = elim (Bool-cases (x.op == i)) [
  | inl e ↦ rw e (lift-other i xs)
  | inr e ↦ rw e (e, lift-other i xs)
]

All-both : (P Q : Entry → Type 0) (xs : List Entry) → All P xs → All Q xs → All (λ x. P x × Q x) xs
All-both P Q [] p q = tt
All-both P Q (x ∷ xs) p q = ((p.0, q.0), All-both P Q xs p.1 q.1)

All-map : (P Q : Entry → Type 0) (xs : List Entry) → ((x : Entry) → P x → Q x) → All P xs → All Q xs
All-map P Q [] f p = tt
All-map P Q (x ∷ xs) f p = (f x p.0, All-map P Q xs f p.1)

module _ {S I O : Type 0} (m : Model S I O) (ops : List (Op I O)) where
  -- The list between two passes, with these operations taken out of it.
  pub record Listed (calls : List ℕ) (entries : List Entry) : Type 0 where
    pub ordered : NonDec entries
    pub timed : All (Timed ops) entries
    pub returns :
        (a : ℕ) → a < length ops → elem a calls ≡ false → any (returns_of a) entries ≡ true
    pub fresh : All (λ x. elem x.op calls ≡ false) entries

  -- The last call placed: it stood in the list with calls alone before it.
  pub record Placed (f : Frame S) (s : S) (entries : List Entry) : Type 0 where
    pub op : Op I O
    pub op_at : get_elem? ops f.call ≡ some op
    pub entry : Entry
    pub is_call : entry.call ≡ true
    pub of_op : entry.op ≡ f.call
    pub before : List Entry
    pub split : f.entries ≡ before ++ entry ∷ f.next
    pub calls : All (λ x. x.call ≡ true) before
    pub legal : m.step f.state op.input op.output ≡ (true, s)
    pub lifted : entries ≡ lift f.call f.entries

  abbrev pub Stacked : List (Frame S) → S → List Entry → Type 0
  Stacked [] s entries = (s ≡ m.init) × (entries ≡ link ops)
  Stacked (f ∷ fs) s entries = Stacked fs f.state f.entries × Placed f s entries

  all-fresh : (xs : List Entry) → All (λ x. elem x.op [] ≡ false) xs
  all-fresh [] = tt
  all-fresh (x ∷ xs) = (refl, all-fresh xs)

  pub start_Listed : Listed [] (link ops)
  start_Listed = record {
    ordered = link-NonDec ops;
    timed = link-Timed ops;
    returns = λ a h _. link-returns ops a h;
    fresh = all-fresh (link ops);
  }

  lift-Listed :
      (i : ℕ) (calls : List ℕ) (entries : List Entry)
      → Listed calls entries
      → Listed (i ∷ calls) (lift i entries)
  unfolding lift
  lift-Listed i calls entries l = record {
    ordered = select-NonDec _ entries l.ordered;
    timed = select-All (Timed ops) _ entries l.timed;
    returns = λ a h e. any-lift a i entries (ground arith) ∙ l.returns a h (ground arith);
    fresh =
        All-map _ (λ x. elem x.op (i ∷ calls) ≡ false) (lift i entries)
          (λ x h. ground (arith, h.0, h.1))
          (All-both _ (λ x. elem x.op calls ≡ false) (lift i entries) (lift-other i entries)
            (select-All (λ x. elem x.op calls ≡ false) _ entries l.fresh));
  }

  pub listed :
      (stack : List (Frame S)) (s : S) (entries : List Entry)
      → Stacked stack s entries
      → Listed (calls_in stack) entries
  listed [] s entries (_, e) = rw e start_Listed
  listed (f ∷ fs) s entries (below, p) =
      rw p.lifted (lift-Listed f.call (calls_in fs) f.entries (listed fs f.state f.entries below))

  -- The time of an entry, by the operation it is of.
  pub stamp :
      (x : Entry) (a : ℕ) (p : Op I O)
      → Timed ops x
      → x.op ≡ a
      → get_elem? ops a ≡ some p
      → x.time ≡ (if x.call then p.call else p.return)
  stamp x a p (o, at', time) same at =
      let at'' : get_elem? ops a ≡ some o = rw same at at' in
      let both : some o ≡ some p = sym at'' ∙ at in let same_op : o ≡ p = cc in rw same_op at time

  -- A return that is in the list behind calls alone is no earlier than the entry behind them.
  too_late :
      (en x : Entry) (a : ℕ) (p : Op I O)
      → NotBefore en x
      → Timed ops x
      → returns_of a x ≡ true
      → get_elem? ops a ≡ some p
      → en.time ≤ℤ p.return
  too_late en x a p nb timed hit at =
      let late : en.time ≤ℤ x.time = elim nb [ inl e ↦ absurd (ground arith) | inr q ↦ q ] in
      let return : x.call ≡ false = ground arith in
      let time : x.time ≡ p.return = rw return at (stamp x a p timed (ground arith) at) in
      subst (λ t. en.time ≤ℤ t) time late

  -- Everything that returned before an entry behind calls alone has been taken out.
  pub settled :
      (calls : List ℕ) (entries before rest : List Entry) (en : Entry) (a : ℕ) (p : Op I O)
      → Listed calls entries
      → entries ≡ before ++ en ∷ rest
      → All (λ x. x.call ≡ true) before
      → get_elem? ops a ≡ some p
      → ltb_ℤ p.return en.time ≡ true
      → elem a calls ≡ true
  settled calls entries before rest en a p l split c at lt = elim (Bool-cases (elem a calls)) [
    | inl there ↦ there
    | inr missing ↦
        let found = l.returns a (get_elem?-lt ops a at) missing in
        let (x, (nb, timed), hit) =
          All-any (λ x. NotBefore en x × Timed ops x) (returns_of a) entries
            (All-both (NotBefore en) (Timed ops) entries
              (subst (All (NotBefore en)) (sym split)
                (tail_of before en rest c (subst NonDec split l.ordered)))
              l.timed)
            found in
        absurd (ground (arith, too_late en x a p nb timed hit at))
  ]

  -- The operations placed are a linearization, into the state of the search.
  pub linearized :
      (stack : List (Frame S)) (s : S) (entries : List Entry)
      → Stacked stack s entries
      → Linearizes m ops (calls_in stack) s
  linearized [] s entries (e, _) = rw e (Linearizes.nothing)
  linearized (f ∷ fs) s entries (below, p) =
      let l = listed fs f.state f.entries below in
      let split = p.split in
      let stamped : Timed ops p.entry =
        head_of (Timed ops) p.before p.entry f.next (subst (All (Timed ops)) split l.timed) in
      let free : elem p.entry.op (calls_in fs) ≡ false =
        head_of (λ x. elem x.op (calls_in fs) ≡ false) p.before p.entry f.next
          (subst (All (λ x. elem x.op (calls_in fs) ≡ false)) split l.fresh) in
      let time : p.entry.time ≡ p.op.call =
        rw p.is_call at (stamp p.entry f.call p.op stamped p.of_op p.op_at) in
      Linearizes.next (linearized fs f.state f.entries below) p.op_at (rw p.of_op at free)
        (λ a q at lt.
          settled (calls_in fs) f.entries p.before f.next p.entry a q l split p.calls at
            (subst (λ t. ltb_ℤ q.return t ≡ true) (sym time) lt))
        p.legal

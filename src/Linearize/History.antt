-- ===== src/Linearize/History.antt =====
-- linearize/linearize.go: what a linearization is, and the order of the entries that `link` lays out.
use torx.Base.{
  ℕ, zero, suc, ◌+◌, ◌<◌, ◌≡◌, inl, inr, refl, sym, ◌∙◌, List, [], ◌∷◌, some, Bool, true, false,
  not, ◌&&◌, any, length, get_elem?, All, if◌then◌else◌, ◌==◌, arith, Bool-cases,
}
use torx.Base.Int.{ltb_ℤ, eqb_ℤ_iff, ◌≤ℤ◌}
use torx.Base.Sort.{insert_sorted, sort_stable}
use torx.Linearize.{Op, Model, Entry, events, entry_less, link}

abbrev pub elem : ℕ → List ℕ → Bool
elem a = any (λ x. x == a)

module _ {S I O : Type 0} (m : Model S I O) (ops : List (Op I O)) where
  -- An order of some of the operations, latest first, that is a legal run of the model into a
  -- state, uses no operation twice, and puts an operation behind all that returned before its call.
  pub data Linearizes : List ℕ → S → Type 0 where
    nothing : Linearizes [] m.init
    next :
        {before : List ℕ} {s s' : S} {i : ℕ} {o : Op I O}
        → Linearizes before s
        → get_elem? ops i ≡ some o
        → elem i before ≡ false
        → ((a : ℕ) (p : Op I O)
            → get_elem? ops a ≡ some p
            → ltb_ℤ p.return o.call ≡ true
            → elem a before ≡ true)
        → m.step s o.input o.output ≡ (true, s')
        → Linearizes (i ∷ before) s'

-- No later entry is earlier in time.
abbrev pub NonDec : List Entry → Type 0
NonDec [] = Unit
NonDec (x ∷ xs) = All (λ y. x.time ≤ℤ y.time) xs × NonDec xs

All-insert :
    (P : Entry → Type 0) (x : Entry) (xs : List Entry)
    → P x
    → All P xs
    → All P (insert_sorted entry_less x xs)
unfolding insert_sorted
All-insert P x [] p h = (p, tt)
All-insert P x (y ∷ ys) p h = elim (Bool-cases (entry_less y x)) [
  | inl e ↦ rw e (h.0, All-insert P x ys p h.1)
  | inr e ↦ rw e (p, h)
]

All-mono :
    {P Q : Entry → Type 0} (xs : List Entry) → ((x : Entry) → P x → Q x) → All P xs → All Q xs
All-mono [] f h = tt
All-mono (x ∷ xs) f h = (f x h.0, All-mono xs f h.1)

less_le : (y x : Entry) → entry_less y x ≡ true → y.time ≤ℤ x.time
unfolding entry_less
less_le y x h = ground (arith, eqb_ℤ_iff y.time x.time)

not_less_le : (y x : Entry) → entry_less y x ≡ false → x.time ≤ℤ y.time
unfolding entry_less
not_less_le y x h = ground (arith, eqb_ℤ_iff y.time x.time)

insert-NonDec : (x : Entry) (xs : List Entry) → NonDec xs → NonDec (insert_sorted entry_less x xs)
unfolding insert_sorted
insert-NonDec x [] h = (tt, tt)
insert-NonDec x (y ∷ ys) h = elim (Bool-cases (entry_less y x)) [
  | inl e ↦
      rw e (All-insert (λ z. y.time ≤ℤ z.time) x ys (less_le y x e) h.0, insert-NonDec x ys h.1)
  | inr e ↦ let le = not_less_le y x e in rw e ((le, All-mono ys (λ z q. omega arith) h.0), h)
]

sort-NonDec : (xs : List Entry) → NonDec (sort_stable entry_less xs)
unfolding sort_stable
sort-NonDec [] = tt
sort-NonDec (x ∷ xs) = insert-NonDec x (sort_stable entry_less xs) (sort-NonDec xs)

sort-All : (P : Entry → Type 0) (xs : List Entry) → All P xs → All P (sort_stable entry_less xs)
unfolding sort_stable
sort-All P [] h = tt
sort-All P (x ∷ xs) h = All-insert P x (sort_stable entry_less xs) h.0 (sort-All P xs h.1)

-- A fact of some entry that is found by a test.
pub All-any :
    (P : Entry → Type 0) (test : Entry → Bool) (xs : List Entry)
    → All P xs
    → any test xs ≡ true
    → (x : Entry) × P x × (test x ≡ true)
All-any P test [] h e = absurd (cc)
All-any P test (x ∷ xs) h e = elim (Bool-cases (test x)) [
  | inl here ↦ (x, h.0, here)
  | inr later ↦ All-any P test xs h.1 (ground arith)
]

any-insert :
    (test : Entry → Bool) (x : Entry) (xs : List Entry)
    → any test (insert_sorted entry_less x xs) ≡ (if test x then true else any test xs)
unfolding insert_sorted
any-insert test x [] = refl
any-insert test x (y ∷ ys) = ground (arith, any-insert test x ys)

any-sort :
    (test : Entry → Bool) (xs : List Entry) → any test (sort_stable entry_less xs) ≡ any test xs
unfolding sort_stable
any-sort test [] = refl
any-sort test (x ∷ xs) =
    ground (arith, any-insert test x (sort_stable entry_less xs), any-sort test xs)

-- The test for the return of an operation.
abbrev pub returns_of : ℕ → Entry → Bool
returns_of a en = not en.call && en.op == a

module _ {I O : Type 0} where
  -- An entry stands at the time of its operation's call or return.
  abbrev pub Timed : List (Op I O) → Entry → Type 0
  Timed ops en =
      (o : Op I O) × (get_elem? ops en.op ≡ some o)
      × (en.time ≡ (if en.call then o.call else o.return))

  pub link-NonDec : (ops : List (Op I O)) → NonDec (link ops)
  unfolding link
  link-NonDec ops = sort-NonDec (events 0 ops)

  events-Timed :
      (all : List (Op I O)) (i : ℕ) (ops : List (Op I O))
      → ((k : ℕ) → get_elem? ops k ≡ get_elem? all (i + k))
      → All (Timed all) (events i ops)
  unfolding events
  events-Timed all i [] at = tt
  events-Timed all i (o ∷ ops) at =
      ((o, here, refl), ((o, here, refl), events-Timed all (suc i) ops later))
    where
      here : get_elem? all i ≡ some o
      here = let e : i + 0 ≡ i = omega arith in sym (rw e at (at 0))

      later : (k : ℕ) → get_elem? ops k ≡ get_elem? all (suc i + k)
      later k = let e : suc i + k ≡ i + suc k = omega arith in rw e (at (suc k))

  pub link-Timed : (ops : List (Op I O)) → All (Timed ops) (link ops)
  unfolding link
  link-Timed ops =
      sort-All (Timed ops) (events 0 ops)
        (events-Timed ops 0 ops (λ k. let e : 0 + k ≡ k = omega arith in rw e))

  events-returns :
      (i a : ℕ) (ops : List (Op I O))
      → a < length ops
      → any (returns_of (i + a)) (events i ops) ≡ true
  unfolding events
  events-returns i a [] h = elim h [ ]
  events-returns i zero (o ∷ ops) h = ground arith
  events-returns i (suc a) (o ∷ ops) h =
      let e : suc i + a ≡ i + suc a = omega arith in
      let rest = rw e at (events-returns (suc i) a ops (omega arith)) in ground arith

  -- Every operation has its return in the list.
  pub link-returns :
      (ops : List (Op I O)) (a : ℕ) → a < length ops → any (returns_of a) (link ops) ≡ true
  unfolding link
  link-returns ops a h =
      any-sort (returns_of a) (events 0 ops)
      ∙ (let e : 0 + a ≡ a = omega arith in rw e at (events-returns 0 a ops h))

-- ===== src/Base/Lists.antt =====
-- Lists measured and indexed by native numbers, under the library's names.
use Prim.Native.Nat.{ℕ, zero, suc, ◌+◌, ◌-◌, ◌≤◌, ◌<◌, min}
use mathlib.Core.Path.{◌≡◌, refl, sym, ap, subst}
use mathlib.Core.Logic.{◌⊎◌, inl, inr}
use mathlib.Core.Bool.{Bool, true, false}
use mathlib.Core.List.{List, [], ◌∷◌, ◌++◌, map}
use mathlib.Core.Option.{Option, none, some, some-injective}
use native.Mathlib.Omega.{arith}
use torx.Base.Tests.{if◌then◌else◌}

module _ {ℓ} {A : Type ℓ} where
  abbrev pub length : List A → ℕ
  length [] = 0
  length (x ∷ xs) = suc (length xs)

  abbrev pub get_elem? : List A → ℕ → Option A
  get_elem? [] i = none
  get_elem? (x ∷ xs) zero = some x
  get_elem? (x ∷ xs) (suc i) = get_elem? xs i

  abbrev pub set : List A → ℕ → A → List A
  set [] i v = []
  set (x ∷ xs) zero v = v ∷ xs
  set (x ∷ xs) (suc i) v = x ∷ set xs i v

  abbrev pub take : ℕ → List A → List A
  take zero xs = []
  take (suc n) [] = []
  take (suc n) (x ∷ xs) = x ∷ take n xs

  abbrev pub drop : ℕ → List A → List A
  drop zero xs = xs
  drop (suc n) [] = []
  drop (suc n) (x ∷ xs) = drop n xs

  -- All but the element at a place.
  abbrev pub remove : ℕ → List A → List A
  remove i [] = []
  remove zero (x ∷ xs) = xs
  remove (suc i) (x ∷ xs) = x ∷ remove i xs

  abbrev pub replicate : ℕ → A → List A
  replicate zero a = []
  replicate (suc n) a = a ∷ replicate n a

  abbrev pub last : List A → Option A
  last [] = none
  last (x ∷ xs) = elim (last xs) [ none ↦ some x | some y ↦ some y ]

  -- The elements that pass a test, in order.
  abbrev pub select : (A → Bool) → List A → List A
  select p [] = []
  select p (x ∷ xs) = if p x then x ∷ select p xs else select p xs

  abbrev pub any : (A → Bool) → List A → Bool
  any p [] = false
  any p (x ∷ xs) = if p x then true else any p xs

  -- A predicate of every element.
  abbrev pub All {κ} : (A → Type κ) → List A → Type κ
  All P [] = Unit
  All P (x ∷ xs) = P x × All P xs

module _ {A : Type 0} where
  -- An element of a list.
  abbrev pub In : A → List A → Type 0
  In x [] = ⊥
  In x (y ∷ ys) = (x ≡ y) ⊎ In x ys

  abbrev pub Distinct : List A → Type 0
  Distinct [] = Unit
  Distinct (x ∷ xs) = (In x xs → ⊥) × Distinct xs

  pub In-left : (x : A) (xs ys : List A) → In x xs → In x (xs ++ ys)
  In-left x [] ys i = elim i [ ]
  In-left x (z ∷ xs) ys (inl e) = inl e
  In-left x (z ∷ xs) ys (inr i) = inr (In-left x xs ys i)

  pub In-split : (x : A) (xs ys : List A) → In x (xs ++ ys) → In x xs ⊎ In x ys
  In-split x [] ys i = inr i
  In-split x (z ∷ xs) ys (inl e) = inl (inl e)
  In-split x (z ∷ xs) ys (inr i) = elim (In-split x xs ys i) [ inl j ↦ inl (inr j) | inr j ↦ inr j ]

  pub In-get_elem? : (x : A) (xs : List A) → In x xs → (i : ℕ) × (get_elem? xs i ≡ some x)
  In-get_elem? x [] i = elim i [ ]
  In-get_elem? x (y ∷ ys) (inl e) = (0, ap some (sym e))
  In-get_elem? x (y ∷ ys) (inr i) = let (j, e) = In-get_elem? x ys i in (suc j, e)

  pub get_elem?-In : (xs : List A) (i : ℕ) (x : A) → get_elem? xs i ≡ some x → In x xs
  get_elem?-In [] i x e = cc
  get_elem?-In (y ∷ ys) zero x e = inl (some-injective x y (sym e))
  get_elem?-In (y ∷ ys) (suc i) x e = inr (get_elem?-In ys i x e)

  pub In-right : (x : A) (xs ys : List A) → In x ys → In x (xs ++ ys)
  In-right x [] ys i = i
  In-right x (z ∷ xs) ys i = inr (In-right x xs ys i)

  In-if :
      (b : Bool) (x y : A) (ys : List A)
      → In x (if b then y ∷ ys else ys)
      → ((b ≡ true) × (x ≡ y)) ⊎ In x ys
  In-if true x y ys (inl e) = inl (refl, e)
  In-if true x y ys (inr i) = inr i
  In-if false x y ys i = inr i

  if-In : (b : Bool) (x y : A) (ys : List A) → In x ys → In x (if b then y ∷ ys else ys)
  if-In true x y ys i = inr i
  if-In false x y ys i = i

  -- What a select keeps is in the list and passes the test, and all of that is kept.
  pub In-select : (p : A → Bool) (xs : List A) (x : A) → In x (select p xs) → In x xs × (p x ≡ true)
  In-select p [] x i = elim i [ ]
  In-select p (y ∷ ys) x i = elim (In-if (p y) x y (select p ys) i) [
    | inl (h, e) ↦ (inl e, subst (λ z. p z ≡ true) (sym e) h)
    | inr j ↦ let (k, h) = In-select p ys x j in (inr k, h)
  ]

  pub select-In : (p : A → Bool) (xs : List A) (x : A) → In x xs → p x ≡ true → In x (select p xs)
  select-In p [] x i h = elim i [ ]
  select-In p (y ∷ ys) x (inl e) h = rw (subst (λ z. p z ≡ true) e h) (inl e)
  select-In p (y ∷ ys) x (inr i) h = if-In (p y) x y (select p ys) (select-In p ys x i h)

  pub All-of_In {κ} : (P : A → Type κ) (xs : List A) → ((x : A) → In x xs → P x) → All P xs
  All-of_In P [] h = tt
  All-of_In P (x ∷ xs) h = (h x (inl refl), All-of_In P xs (λ y i. h y (inr i)))

  pub In-All {κ} : (P : A → Type κ) (xs : List A) (x : A) → All P xs → In x xs → P x
  In-All P [] x h i = elim i [ ]
  In-All P (y ∷ ys) x h (inl e) = subst P (sym e) h.0
  In-All P (y ∷ ys) x h (inr i) = In-All P ys x h.1 i

  pub All-In : (xs : List A) → All (λ x. In x xs) xs
  All-In xs = All-of_In (λ x. In x xs) xs (λ x i. i)

module _ {A B : Type 0} where
  pub In-map : (f : A → B) (xs : List A) (y : B) → In y (map f xs) → (x : A) × In x xs × (y ≡ f x)
  In-map f [] y i = elim i [ ]
  In-map f (x ∷ xs) y (inl e) = (x, inl refl, e)
  In-map f (x ∷ xs) y (inr i) = let (z, j, e) = In-map f xs y i in (z, inr j, e)

module _ {ℓ} {A : Type ℓ} where
  pub length-append : (xs ys : List A) → length (xs ++ ys) ≡ length xs + length ys
  length-append [] ys = omega arith
  length-append (x ∷ xs) ys = omega (arith, length-append xs ys)

  pub length-map {κ} : {B : Type κ} (f : A → B) (xs : List A) → length (map f xs) ≡ length xs
  length-map f [] = refl
  length-map f (x ∷ xs) = ap suc (length-map f xs)

  pub length-replicate : (n : ℕ) (a : A) → length (replicate n a) ≡ n
  length-replicate zero a = refl
  length-replicate (suc n) a = ap suc (length-replicate n a)

  pub length-take : (n : ℕ) (xs : List A) → length (take n xs) ≡ min n (length xs)
  length-take zero xs = omega arith
  length-take (suc n) [] = omega arith
  length-take (suc n) (x ∷ xs) = omega (arith, length-take n xs)

  pub length-drop : (n : ℕ) (xs : List A) → length (drop n xs) ≡ length xs - n
  length-drop zero xs = omega arith
  length-drop (suc n) [] = omega arith
  length-drop (suc n) (x ∷ xs) = omega (arith, length-drop n xs)

  pub length-select-le : (p : A → Bool) (xs : List A) → length (select p xs) ≤ length xs
  length-select-le p [] = omega arith
  length-select-le p (x ∷ xs) = ground (arith, length-select-le p xs)

  pub All-append {κ} : (P : A → Type κ) (xs ys : List A) → All P xs → All P ys → All P (xs ++ ys)
  All-append P [] ys h k = k
  All-append P (x ∷ xs) ys h k = (h.0, All-append P xs ys h.1 k)

  pub All-get {κ} :
      (P : A → Type κ) (xs : List A) (i : ℕ) {a : A} → All P xs → get_elem? xs i ≡ some a → P a
  All-get P [] i h e = cc
  All-get P (x ∷ xs) zero {a} h e = ground (arith, h.0)
  All-get P (x ∷ xs) (suc i) h e = All-get P xs i h.1 e

  pub get_elem?-lt : (xs : List A) (i : ℕ) {a : A} → get_elem? xs i ≡ some a → i < length xs
  get_elem?-lt [] i e = cc
  get_elem?-lt (x ∷ xs) zero e = omega arith
  get_elem?-lt (x ∷ xs) (suc i) e = omega (arith, get_elem?-lt xs i e)

  pub get_elem?_of_lt : (xs : List A) (i : ℕ) → i < length xs → (a : A) × (get_elem? xs i ≡ some a)
  get_elem?_of_lt [] i h = elim h [ ]
  get_elem?_of_lt (x ∷ xs) zero h = (x, refl)
  get_elem?_of_lt (x ∷ xs) (suc i) h = get_elem?_of_lt xs i (omega arith)

  pub set-same : (xs : List A) (i : ℕ) {a : A} → get_elem? xs i ≡ some a → set xs i a ≡ xs
  set-same [] i e = refl
  set-same (x ∷ xs) zero {a} e = ap (λ y. y ∷ xs) (some-injective a x (sym e))
  set-same (x ∷ xs) (suc i) e = ap (◌∷◌ x) (set-same xs i e)

  pub length-remove : (xs : List A) (i : ℕ) → i < length xs → suc (length (remove i xs)) ≡ length xs
  length-remove [] i h = elim h [ ]
  length-remove (x ∷ xs) zero h = refl
  length-remove (x ∷ xs) (suc i) h = ap suc (length-remove xs i (omega arith))

  pub length-set : (xs : List A) (i : ℕ) (v : A) → length (set xs i v) ≡ length xs
  length-set [] i v = refl
  length-set (x ∷ xs) zero v = refl
  length-set (x ∷ xs) (suc i) v = ap suc (length-set xs i v)

  pub get_elem?-set :
      (xs : List A) (i : ℕ) (v : A) → i < length xs → get_elem? (set xs i v) i ≡ some v
  get_elem?-set [] i v h = elim h [ ]
  get_elem?-set (x ∷ xs) zero v h = refl
  get_elem?-set (x ∷ xs) (suc i) v h = get_elem?-set xs i v (omega arith)

  pub get_elem?-set_other :
      (xs : List A) (i j : ℕ) (v : A) → (j ≡ i → ⊥) → get_elem? (set xs i v) j ≡ get_elem? xs j
  get_elem?-set_other [] i j v d = refl
  get_elem?-set_other (x ∷ xs) zero zero v d = elim (d refl) [ ]
  get_elem?-set_other (x ∷ xs) zero (suc j) v d = refl
  get_elem?-set_other (x ∷ xs) (suc i) zero v d = refl
  get_elem?-set_other (x ∷ xs) (suc i) (suc j) v d =
      get_elem?-set_other xs i j v (λ e. d (ap suc e))

  pub get_elem?-none_le : (xs : List A) (i : ℕ) → get_elem? xs i ≡ none → length xs ≤ i
  get_elem?-none_le [] i e = omega arith
  get_elem?-none_le (x ∷ xs) zero e = cc
  get_elem?-none_le (x ∷ xs) (suc i) e = omega (arith, get_elem?-none_le xs i e)

  pub All-set {κ} :
      (P : A → Type κ) (xs : List A) (i : ℕ) (v : A) → All P xs → P v → All P (set xs i v)
  All-set P [] i v h k = h
  All-set P (x ∷ xs) zero v h k = (k, h.1)
  All-set P (x ∷ xs) (suc i) v h k = (h.0, All-set P xs i v h.1 k)

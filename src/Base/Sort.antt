-- ===== src/Base/Sort.antt =====
-- slices.SortStableFunc and slices.Sort of Go's standard library, as a stable insertion sort.
use Prim.Native.Nat.{ℕ, zero, suc, ◌+◌, ◌<◌}
use mathlib.Core.Path.{◌≡◌, refl}
use mathlib.Core.Bool.{Bool, true}
use mathlib.Core.List.{List, [], ◌∷◌, ◌++◌, map}
use mathlib.Core.Option.{some}
use native.Mathlib.Omega.{arith}
use torx.Base.Tests.{if◌then◌else◌}
use torx.Base.Lists.{get_elem?, remove}

-- How many elements pass a test.
module _ {ℓ} {A : Type ℓ} where
  abbrev pub count_if : (A → Bool) → List A → ℕ
  count_if p [] = 0
  count_if p (x ∷ xs) = (if p x then 1 else 0) + count_if p xs

  pub count-append :
      (p : A → Bool) (xs ys : List A) → count_if p (xs ++ ys) ≡ count_if p xs + count_if p ys
  count-append p [] ys = omega arith
  count-append p (x ∷ xs) ys = omega (arith, count-append p xs ys)

  pub count-remove :
      (p : A → Bool) (xs : List A) (i : ℕ) (x : A)
      → get_elem? xs i ≡ some x
      → count_if p xs ≡ (if p x then 1 else 0) + count_if p (remove i xs)
  count-remove p [] i x e = cc
  count-remove p (y ∷ ys) zero x e = ground arith
  count-remove p (y ∷ ys) (suc i) x e = omega (arith, count-remove p ys i x e)

pub count-map {ℓ κ} :
    {A : Type ℓ} {B : Type κ} (p : B → Bool) (f : A → B) (xs : List A)
    → count_if p (map f xs) ≡ count_if (λ x. p (f x)) xs
count-map p f [] = refl
count-map p f (x ∷ xs) = omega (arith, count-map p f xs)

-- `less a b` says that `a` goes strictly before `b`; equal elements keep their order.
module _ {ℓ} {A : Type ℓ} (less : A → A → Bool) where
  unfoldable pub insert_sorted : A → List A → List A
  insert_sorted x [] = x ∷ []
  insert_sorted x (y ∷ ys) = if less y x then y ∷ insert_sorted x ys else x ∷ y ∷ ys

  unfoldable pub sort_stable : List A → List A
  unfolding insert_sorted
  sort_stable [] = []
  sort_stable (x ∷ xs) = insert_sorted x (sort_stable xs)

  count-insert_sorted :
      (p : A → Bool) (x : A) (xs : List A)
      → count_if p (insert_sorted x xs) ≡ (if p x then 1 else 0) + count_if p xs
  unfolding insert_sorted
  count-insert_sorted p x [] = refl
  count-insert_sorted p x (y ∷ ys) = ground (arith, count-insert_sorted p x ys)

  pub count-sort_stable : (p : A → Bool) (xs : List A) → count_if p (sort_stable xs) ≡ count_if p xs
  unfolding sort_stable
  count-sort_stable p [] = refl
  count-sort_stable p (x ∷ xs) =
      omega (arith, count-insert_sorted p x (sort_stable xs), count-sort_stable p xs)

pub count-pos :
    {A : Type 0} (q : A → Bool) (xs : List A) (i : ℕ) (x : A)
    → get_elem? xs i ≡ some x
    → q x ≡ true
    → 0 < count_if q xs
count-pos q [] i x e t = absurd (cc)
count-pos q (y ∷ ys) zero x e t = ground arith
count-pos q (y ∷ ys) (suc i) x e t = omega (arith, count-pos q ys i x e t)

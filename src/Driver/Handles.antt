-- ===== src/Driver/Handles.antt =====
-- driver.go: the handles of the jobs that run, each of a sub-pool that is still out, and counts over
-- lists of them.
use torx.Base.{
  ℕ, zero, suc, ◌≤◌, ◌<◌, ◌≡◌, ◌≢◌, inl, inr, refl, ap, subst, List, [], ◌∷◌, ◌++◌, some, Bool,
  true, false, length, get_elem?, set, remove, All, ◌==◌, arith, Bool-cases,
}
use torx.Base.Sort.{count_if, count-append, count-pos}
use torx.Pool.{SubPool}
use torx.Discovery.{JobRequest}
use torx.Driver.{Running}

abbrev pub LiveAt : List SubPool → ℕ → Type 0
LiveAt subs h = (sub : SubPool) × (get_elem? subs h ≡ some sub) × (sub.freed ≡ false)

pub LiveAt-append : (subs more : List SubPool) (h : ℕ) → LiveAt subs h → LiveAt (subs ++ more) h
LiveAt-append [] more h (sub, e, f) = absurd (cc)
LiveAt-append (x ∷ subs) more zero (sub, e, f) = (sub, e, f)
LiveAt-append (x ∷ subs) more (suc h) (sub, e, f) = LiveAt-append subs more h (sub, e, f)

pub LiveAt-last :
    (subs : List SubPool) (sub : SubPool)
    → sub.freed ≡ false
    → LiveAt (subs ++ sub ∷ []) (length subs)
LiveAt-last [] sub f = (sub, refl, f)
LiveAt-last (x ∷ subs) sub f = LiveAt-last subs sub f

pub LiveAt-set :
    (subs : List SubPool) (i h : ℕ) (sub : SubPool)
    → (h == i) ≡ false
    → LiveAt subs h
    → LiveAt (set subs i sub) h
LiveAt-set [] i h sub n (x, e, f) = absurd (cc)
LiveAt-set (x ∷ subs) zero zero sub n l = absurd (ground arith)
LiveAt-set (x ∷ subs) zero (suc h) sub n l = l
LiveAt-set (x ∷ subs) (suc i) zero sub n l = l
LiveAt-set (x ∷ subs) (suc i) (suc h) sub n l = LiveAt-set subs i h sub (ground arith) l

pub All-mono :
    {A : Type 0} (P Q : A → Type 0) (xs : List A) → ((x : A) → P x → Q x) → All P xs → All Q xs
All-mono P Q [] f h = tt
All-mono P Q (x ∷ xs) f h = (f x h.0, All-mono P Q xs f h.1)

pub All-remove :
    {A : Type 0} (P : A → Type 0) (xs : List A) (i : ℕ) → All P xs → All P (remove i xs)
All-remove P [] i h = tt
All-remove P (x ∷ xs) zero h = h.1
All-remove P (x ∷ xs) (suc i) h = (h.0, All-remove P xs i h.1)

-- Where a test finds nothing, everything fails it.
pub All-counted :
    {A : Type 0} (P : A → Type 0) (q : A → Bool) (xs : List A)
    → count_if q xs ≡ 0
    → All P xs
    → All (λ x. P x × (q x ≡ false)) xs
All-counted P q [] c h = tt
All-counted P q (x ∷ xs) c h = ((h.0, ground arith), All-counted P q xs (ground arith) h.1)

pub count-two :
    {A : Type 0} (q : A → Bool) (xs : List A) (i j : ℕ) (x y : A)
    → i ≢ j
    → get_elem? xs i ≡ some x
    → get_elem? xs j ≡ some y
    → q x ≡ true
    → q y ≡ true
    → 1 < count_if q xs
count-two q [] i j x y d e f t u = absurd (cc)
count-two q (z ∷ zs) zero zero x y d e f t u = absurd (d refl)
count-two q (z ∷ zs) zero (suc j) x y d e f t u = ground (arith, count-pos q zs j y f u)
count-two q (z ∷ zs) (suc i) zero x y d e f t u = ground (arith, count-pos q zs i x e t)
count-two q (z ∷ zs) (suc i) (suc j) x y d e f t u =
    omega (arith, count-two q zs i j x y (λ same. d (ap suc same)) e f t u)

pub count-none_of :
    {A : Type 0} (q : A → Bool) (xs : List A)
    → ((j : ℕ) (y : A) → get_elem? xs j ≡ some y → q y ≡ false)
    → count_if q xs ≡ 0
count-none_of q [] h = refl
count-none_of q (x ∷ xs) h = ground (arith, h 0 x refl, count-none_of q xs (λ j y e. h (suc j) y e))

-- Where one place passes a test and no other does, the count is one.
pub count-only :
    {A : Type 0} (q : A → Bool) (xs : List A) (i : ℕ) (x : A)
    → get_elem? xs i ≡ some x
    → q x ≡ true
    → ((j : ℕ) (y : A) → i ≢ j → get_elem? xs j ≡ some y → q y ≡ false)
    → count_if q xs ≡ 1
count-only q [] i x e t h = absurd (cc)
count-only q (z ∷ zs) zero x e t h =
    ground (arith, count-none_of q zs (λ j y f. h (suc j) y (λ n. absurd (omega arith)) f))
count-only q (z ∷ zs) (suc i) x e t h = ground (
  arith,
  h 0 z (λ n. absurd (omega arith)) refl,
  count-only q zs i x e t (λ j y d f. h (suc j) y (λ n. d (omega arith)) f),
)

-- A list whose elements are below a number, under a test for that number.
count-fresh :
    (rs : List Running) (n : ℕ) → All (λ r. r.handle < n) rs → count_if (λ r. r.handle == n) rs ≡ 0
count-fresh [] n h = refl
count-fresh (r ∷ rs) n h = ground (arith, count-fresh rs n h.1)

pub apart_snoc :
    (rs : List Running) (req : JobRequest) (n k : ℕ)
    → All (λ r. r.handle < n) rs
    → count_if (λ r. r.handle == k) rs ≤ 1
    → count_if (λ r. r.handle == k) (rs ++ record { req = req; handle = n } ∷ []) ≤ 1
apart_snoc rs req n k below h =
    let whole =
      count-append (λ (r : Running). r.handle == k) rs (record { req = req; handle = n } ∷ []) in
    elim (Bool-cases (n == k)) [
      | inl here ↦
          let none_yet : count_if (λ (r : Running). r.handle == k) rs ≡ 0 =
            subst (λ x. count_if (λ (r : Running). r.handle == x) rs ≡ 0) (ground arith)
              (count-fresh rs n below) in
          ground (arith, whole)
      | inr other ↦ ground (arith, whole)
    ]

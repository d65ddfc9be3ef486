-- ===== src/Pool/Count.antt =====
-- Counting nodes by identity.
use native.Mathlib.Decide.{dec_lt}
use torx.Base.{
  ℕ, zero, suc, ◌+◌, ◌≤◌, ◌<◌, ◌≡◌, ◌≢◌, inl, inr, refl, sym, ap, ◌∙◌, List, [], ◌∷◌, ◌++◌, some,
  Bool, true, false, not, length, select, any, get_elem?, get_elem?-lt, if◌then◌else◌, ◌==◌, arith,
  Bool-cases,
}
use torx.Base.Sort.{count_if}
use torx.Node.{Node}

abbrev pub cnt : ℕ → List Node → ℕ
cnt k = count_if (λ n. n.id == k)

abbrev pub holding : List Node → ℕ → Bool
holding ns k = any (λ n. n.id == k) ns

pub cnt-append : (k : ℕ) (xs ys : List Node) → cnt k (xs ++ ys) ≡ cnt k xs + cnt k ys
cnt-append k [] ys = omega arith
cnt-append k (x ∷ xs) ys = omega (arith, cnt-append k xs ys)

pub holds-cnt : (k : ℕ) (ns : List Node) → holding ns k ≡ (if cnt k ns == 0 then false else true)
holds-cnt k [] = ground arith
holds-cnt k (n ∷ ns) = ground (arith, holds-cnt k ns)

-- Taking out the nodes whose identities a list holds.
pub cnt-without :
    (k : ℕ) (p : ℕ → Bool) (ns : List Node)
    → cnt k (select (λ n. not (p n.id)) ns) ≡ (if p k then 0 else cnt k ns)
cnt-without k p [] = ground arith
cnt-without k p (n ∷ ns) = ground (arith, cnt-without k p ns)

pub get-cnt :
    (k i : ℕ) (ns : List Node) {n : Node} → get_elem? ns i ≡ some n → n.id ≡ k → 0 < cnt k ns
get-cnt k i [] e h = cc
get-cnt k zero (x ∷ ns) {n} e h = ground arith
get-cnt k (suc i) (x ∷ ns) e h = omega (arith, get-cnt k i ns e h)

pub cnt-get :
    (k : ℕ) (ns : List Node)
    → 0 < cnt k ns
    → (i : ℕ) × (n : Node) × (get_elem? ns i ≡ some n) × (n.id ≡ k)
cnt-get k [] h = elim h [ ]
cnt-get k (x ∷ ns) h = elim (Bool-cases (x.id == k)) [
  | inl e ↦ (0, x, refl, ground arith)
  | inr e ↦ let (i, n, at, same) = cnt-get k ns (ground arith) in (suc i, n, at, same)
]

pub once_at :
    (k i j : ℕ) (ns : List Node) {m n : Node}
    → cnt k ns ≤ 1
    → get_elem? ns i ≡ some m
    → m.id ≡ k
    → get_elem? ns j ≡ some n
    → n.id ≡ k
    → i ≡ j
once_at k i j [] once e h f g = cc
once_at k zero zero (x ∷ ns) once e h f g = refl
once_at k zero (suc j) (x ∷ ns) once e h f g = absurd (ground (arith, get-cnt k j ns f g))
once_at k (suc i) zero (x ∷ ns) once e h f g = absurd (ground (arith, get-cnt k i ns e h))
once_at k (suc i) (suc j) (x ∷ ns) once e h f g = ap suc (once_at k i j ns (omega arith) e h f g)

-- Two places for one identity.
twice_at :
    (k : ℕ) (ns : List Node)
    → 2 ≤ cnt k ns
    → (i j : ℕ) × (m : Node) × (n : Node) × (i ≢ j)
      × (get_elem? ns i ≡ some m)
      × (m.id ≡ k)
      × (get_elem? ns j ≡ some n)
      × (n.id ≡ k)
twice_at k [] h = absurd (omega arith)
twice_at k (x ∷ ns) h = elim (Bool-cases (x.id == k)) [
  | inl e ↦
      let (i, n, at, same) = cnt-get k ns (ground arith) in
      (0, suc i, x, n, (λ q. omega arith), refl, ground arith, at, same)
  | inr e ↦
      let (i, j, m, n, d, a, b, c, f) = twice_at k ns (ground arith) in
      (suc i, suc j, m, n, (λ q. d (omega arith)), a, b, c, f)
]

-- Nodes taken from distinct places of a list with distinct identities.
pub cnt-picked :
    (ns cs : List Node) (place : ℕ → ℕ)
    → ((i : ℕ) → i < length ns → get_elem? ns i ≡ get_elem? cs (place i))
    → ((i j : ℕ) → i < length ns → j < length ns → place i ≡ place j → i ≡ j)
    → (k : ℕ) → cnt k cs ≤ 1
    → cnt k ns ≤ cnt k cs
cnt-picked ns cs place at inj k once = elim (dec_lt 1 (cnt k ns)) [
  | yes many ↦
      let (i, j, m, n, d, a, b, c, f) = twice_at k ns many in
      let hi = get_elem?-lt ns i a in
      let hj = get_elem?-lt ns j c in
      absurd (
        d (
          inj i j hi hj
            (once_at k (place i) (place j) cs once (sym (at i hi) ∙ a) b (sym (at j hj) ∙ c) f)))
  | no few ↦ elim (dec_lt 0 (cnt k ns)) [
    | yes one ↦
        let (i, n, a, b) = cnt-get k ns one in
        omega (arith, get-cnt k (place i) cs (sym (at i (get_elem?-lt ns i a)) ∙ a) b)
    | no never ↦ omega arith
  ]
]

-- One identity less at a time.
pub length-without :
    (k : ℕ) (ns : List Node) → length (select (λ n. not (n.id == k)) ns) + cnt k ns ≡ length ns
length-without k [] = refl
length-without k (n ∷ ns) = ground (arith, length-without k ns)

without-cons :
    (a : Node) (taken ns : List Node)
    → select (λ n. not (holding (a ∷ taken) n.id)) ns
      ≡ select (λ n. not (n.id == a.id)) (select (λ n. not (holding taken n.id)) ns)
without-cons a taken [] = refl
without-cons a taken (n ∷ ns) = ground (arith, without-cons a taken ns)

without-nil : (ns : List Node) → select (λ n. not (holding [] n.id)) ns ≡ ns
without-nil [] = refl
without-nil (n ∷ ns) = ap (◌∷◌ n) (without-nil ns)

-- Nodes that a list holds once each, taken out of it.
pub length-without_all :
    (taken ns : List Node)
    → ((k : ℕ) → cnt k taken ≤ cnt k ns)
    → ((k : ℕ) → cnt k ns ≤ 1)
    → length (select (λ n. not (holding taken n.id)) ns) + length taken ≡ length ns
length-without_all [] ns le once = rw (without-nil ns) (omega arith)
length-without_all (a ∷ taken) ns le once =
    ap (λ l. length l + suc (length taken)) (without-cons a taken ns)
    ∙ ground (
      arith,
      length-without a.id (select (λ n. not (holding taken n.id)) ns),
      cnt-without a.id (holding taken) ns,
      holds-cnt a.id taken,
      le a.id,
      once a.id,
      length-without_all taken ns (λ k. ground (arith, le k)) once,
    )

-- ===== src/Params/Expansion.antt =====
-- params.go and discovery.go: how many variants a matrix or an override expands to, and which.
use native.Mathlib.Nat.{le-div_iff_mul-le, mul_assoc, mul-pos, le-mul_of_pos_right}
use torx.Base.{
  ℕ, ◌+◌, ◌*◌, ◌/◌, ◌≤◌, ◌<◌, ◌≡◌, ◌⊎◌, ◌↔◌, inl, inr, refl, sym, subst, ◌∙◌, List, [], ◌∷◌, ◌++◌,
  none, some, true, false, length, All, if◌then◌else◌, ◌==◌, ltb, leb, arith, Bool-cases,
}
use torx.Params.Points.{
  product, IsPoint, points_of, expand_points, length-points_of, points_of-IsPoint, no_points,
}
use torx.Params.{
  Params, Dims, ParamsOverride, max_int, max_variants, size_loop, has_empty, matrix_size, matrix_of,
  override_size, variants,
}

product_pos : (dims : Dims) → has_empty dims ≡ false → 0 < product dims
product_pos [] h = omega arith
product_pos ((k, vs) ∷ dims) h = mul-pos (ground arith) (product_pos dims (ground arith))

product_empty : (dims : Dims) → has_empty dims ≡ true → product dims ≡ 0
product_empty [] h = absurd (ground arith)
product_empty ((k, vs) ∷ dims) h = elim (Bool-cases (length vs == 0)) [
  | inl none_here ↦ let e : length vs ≡ 0 = ground arith in rw e (omega arith)
  | inr some_here ↦ rw (product_empty dims (ground arith)) (omega arith)
]

loop_lem :
    (n : ℕ) (dims : Dims)
    → 0 < n
    → n ≤ max_int
    → has_empty dims ≡ false
    → size_loop n dims
      ≡ (if leb (n * product dims) max_int then (n * product dims, true) else (max_int, false))
unfolding size_loop
loop_lem n [] pos le h = ground arith
loop_lem n ((k, vs) ∷ dims) pos le h =
    let fit : (n ≤ max_int / length vs) ↔ (n * length vs ≤ max_int) =
      le-div_iff_mul-le (ground arith) in
    let same : n * length vs * product dims ≡ n * (length vs * product dims) =
      mul_assoc n (length vs) (product dims) in
    elim (Bool-cases (ltb (max_int / length vs) n)) [
      | inl over ↦
          let big : max_int < n * length vs = ground (arith, fit.1) in
          let grows = le-mul_of_pos_right (n * length vs) (product_pos dims (ground arith)) in
          let beyond : leb (n * (length vs * product dims)) max_int ≡ false =
            subst (λ x. leb x max_int ≡ false) same (ground arith) in
          rw (over, beyond, size_loop) refl
      | inr fits ↦
          let small : n * length vs ≤ max_int = ground (arith, fit.0) in
          rw (fits, size_loop)
            (loop_lem (n * length vs) dims (mul-pos pos (ground arith)) small (ground arith)
              ∙ rw same refl)
    ]

-- matrixSize is the number of points of the product if an int holds it, and says that it is exact;
-- otherwise it is the largest int, and says that it is not. The order of the dimensions has no part
-- in it.
pub matrix_size_lem :
    (dims : Dims)
    → matrix_size dims
      ≡ (if leb (product dims) max_int then (product dims, true) else (max_int, false))
unfolding matrix_size
matrix_size_lem dims = elim (Bool-cases (has_empty dims)) [
  | inl e ↦ rw (e, matrix_size) (rw (product_empty dims e) refl)
  | inr e ↦
      let one : 1 * product dims ≡ product dims = omega arith in
      rw (e, matrix_size) (loop_lem 1 dims (omega arith) (omega arith) e ∙ rw one refl)
]

within : (dims : Dims) → (ltb max_variants (matrix_size dims).0) ≡ ltb max_variants (product dims)
within dims = rw (matrix_size_lem dims) (ground arith)

-- Matrix panics exactly when the product has more than MaxVariants points. Otherwise it returns
-- the points of the product in order, the last dimension changing fastest: one for each choice of
-- a value in each dimension, so as many as the numbers of values multiply to, and each takes,
-- dimension by dimension, one of its values.
pub matrix_lem :
    (dims : Dims)
    → ((max_variants < product dims) × (matrix_of dims ≡ none))
      ⊎ ((product dims ≤ max_variants)
          × (matrix_of dims ≡ some (points_of dims))
          × (length (points_of dims) ≡ product dims)
          × All (IsPoint dims) (points_of dims))
unfolding matrix_of
matrix_lem dims = elim (Bool-cases (ltb max_variants (product dims))) [
  | inl over ↦ inl (ground arith, rw (within dims ∙ over, matrix_of) refl)
  | inr fits ↦
      let exact : (matrix_size dims).0 ≡ product dims = rw (matrix_size_lem dims) (ground arith) in
      inr (
        ground arith,
        elim (Bool-cases (product dims == 0)) [
          | inl nil ↦ rw (exact, fits, nil, no_points dims (ground arith), matrix_of) refl
          | inr some_left ↦ rw (exact, fits, some_left, expand_points dims, matrix_of) refl
        ],
        length-points_of dims,
        points_of-IsPoint dims,
      )
]

abbrev pub points : ParamsOverride → ℕ
points o = if length o.matrix == 0 then 0 else product o.matrix

pub size_within :
    (o : ParamsOverride)
    → ltb max_variants (override_size o).0 ≡ ltb max_variants (points o + length o.configs)
unfolding override_size
size_within o = elim (Bool-cases (length o.matrix == 0)) [
  | inl none_here ↦ rw (none_here, override_size) (ground arith)
  | inr some_here ↦ rw (some_here, override_size) (rw (matrix_size_lem o.matrix) (ground arith))
]

-- The points of an override's matrix, if it has one.
abbrev pub matrix_points : ParamsOverride → List Params
matrix_points o = if length o.matrix == 0 then [] else points_of o.matrix

pub length-matrix_points : (o : ParamsOverride) → length (matrix_points o) ≡ points o
length-matrix_points o = elim (Bool-cases (length o.matrix == 0)) [
  | inl none_here ↦ rw none_here refl
  | inr some_here ↦ rw some_here (length-points_of o.matrix)
]

-- An override within the limit gives the points of its matrix and then its configs.
pub variants_points :
    (o : ParamsOverride)
    → ltb max_variants (override_size o).0 ≡ false
    → variants o ≡ some (matrix_points o ++ o.configs)
unfolding variants
variants_points o small = elim (Bool-cases (length o.matrix == 0)) [
  | inl none_here ↦ rw (small, none_here, variants) refl
  | inr some_here ↦ elim (matrix_lem o.matrix) [
    | inl (big, _) ↦
        absurd (
          let fits = sym (size_within o) ∙ small in
          let count = rw some_here at fits in ground arith)
    | inr (_, e, _, _) ↦ rw (small, some_here, e, variants) refl
  ]
]

-- An override is refused exactly when the points of its matrix, if it has one, and its configs are
-- together more than MaxVariants; otherwise it gives that many parameter sets, its configs last.
pub variants_lem :
    (o : ParamsOverride)
    → ((max_variants < points o + length o.configs) × (variants o ≡ none))
      ⊎ ((points o + length o.configs ≤ max_variants)
          × ((ps : List Params) × (variants o ≡ some (ps ++ o.configs)) × (length ps ≡ points o)))
unfolding variants
variants_lem o = elim (Bool-cases (ltb max_variants (points o + length o.configs))) [
  | inl over ↦ inl (ground arith, rw (size_within o ∙ over, variants) refl)
  | inr fits ↦ inr (
    ground arith,
    (matrix_points o, variants_points o (size_within o ∙ fits), length-matrix_points o),
  )
]

-- ===== src/Params/Strict.antt =====
-- params.go: what a params file that parses is like.
use torx.Base.{
  ◌+◌, ◌≤◌, ◌<◌, ◌≡◌, inl, inr, ap, subst, sym, ◌∙◌, String, List, [], ◌∷◌, ◌++◌, Option, none,
  some, false, not, ◌&&◌, ◌||◌, any, length, All, if◌then◌else◌, ◌==◌, ltb, arith, Bool-cases,
  Option-cases,
}
use torx.Params.{
  Json, Params, Dims, ParamsOverride, max_variants, rejects, override_size, variants, decode_object,
  decode_array, lookup, form, known_field, is_none, parse_dims, parse_matrix, parse_config_list,
  parse_configs, parse_fields, parse_override, parse_entries, parse_overrides,
}
use torx.Params.Expansion.{
  points, size_within, variants_points, matrix_points, length-matrix_points,
}
use torx.Params.Points.{IsPoint, points_of-IsPoint}

-- A dimension has values, and none of them has a null in it.
abbrev pub StrictDim : String × List Json → Type 0
StrictDim (_, values) = (0 < length values) × (any rejects values ≡ false)

abbrev pub StrictConfig : Params → Type 0
StrictConfig p = any (λ f. rejects f.1) p ≡ false

abbrev pub Strict : String × ParamsOverride → Type 0
Strict (_, o) =
    All StrictDim o.matrix
    × All StrictConfig o.configs
    × (variants o ≡ some (matrix_points o ++ o.configs))
    × All (IsPoint o.matrix) (matrix_points o)
    × (length (matrix_points o) ≡ points o)
    × (points o + length o.configs ≤ max_variants)

parse_dims-Strict :
    (fs : List (String × Json)) (dims : Dims) → parse_dims fs ≡ some dims → All StrictDim dims
unfolding parse_dims
parse_dims-Strict [] dims e =
    subst (All StrictDim) (ap (λ o. elim o [ none ↦ [] | some d ↦ d ]) e) tt
parse_dims-Strict ((k, v) ∷ fs) dims e = elim (Option-cases (decode_array v)) [
  | inl n ↦ absurd (let e' = rw (n, parse_dims) at e in ground arith)
  | inr (values, at) ↦ elim (Bool-cases (length values == 0 || any rejects values)) [
    | inl bad ↦ absurd (let e' = rw (at, bad, parse_dims) at e in ground arith)
    | inr good ↦ elim (Option-cases (parse_dims fs)) [
      | inl n ↦ absurd (let e' = rw (at, good, n, parse_dims) at e in ground arith)
      | inr (rest, r) ↦
          let e' = rw (at, good, r, parse_dims) at e in
          subst (All StrictDim) (ap (λ o. elim o [ none ↦ [] | some d ↦ d ]) e')
            ((ground arith, ground arith), parse_dims-Strict fs rest r)
    ]
  ]
]

parse_matrix-Strict : (v : Json) (dims : Dims) → parse_matrix v ≡ some dims → All StrictDim dims
unfolding parse_matrix
parse_matrix-Strict v dims e = elim (Option-cases (decode_object v)) [
  | inl n ↦ absurd (let e' = rw (n, parse_matrix) at e in ground arith)
  | inr (fs, at) ↦ elim (Bool-cases (length fs == 0)) [
    | inl bad ↦ absurd (let e' = rw (at, bad, parse_matrix) at e in ground arith)
    | inr good ↦ parse_dims-Strict fs dims (rw (at, good, parse_matrix) at e)
  ]
]

parse_config_list-Strict :
    (vs : List Json) (ps : List Params) → parse_config_list vs ≡ some ps → All StrictConfig ps
unfolding parse_config_list
parse_config_list-Strict [] ps e =
    subst (All StrictConfig) (ap (λ o. elim o [ none ↦ [] | some d ↦ d ]) e) tt
parse_config_list-Strict (v ∷ vs) ps e = elim (Option-cases (decode_object v)) [
  | inl n ↦ absurd (let e' = rw (n, parse_config_list) at e in ground arith)
  | inr (p, at) ↦ elim (Bool-cases (any (λ f. rejects f.1) p)) [
    | inl bad ↦ absurd (let e' = rw (at, bad, parse_config_list) at e in ground arith)
    | inr good ↦ elim (Option-cases (parse_config_list vs)) [
      | inl n ↦ absurd (let e' = rw (at, good, n, parse_config_list) at e in ground arith)
      | inr (rest, r) ↦
          let e' = rw (at, good, r, parse_config_list) at e in
          subst (All StrictConfig) (ap (λ o. elim o [ none ↦ [] | some d ↦ d ]) e')
            (good, parse_config_list-Strict vs rest r)
    ]
  ]
]

parse_configs-Strict :
    (v : Json) (ps : List Params) → parse_configs v ≡ some ps → All StrictConfig ps
unfolding parse_configs
parse_configs-Strict v ps e = elim (Option-cases (decode_array v)) [
  | inl n ↦ absurd (let e' = rw (n, parse_configs) at e in ground arith)
  | inr (vs, at) ↦ elim (Bool-cases (length vs == 0)) [
    | inl bad ↦ absurd (let e' = rw (at, bad, parse_configs) at e in ground arith)
    | inr good ↦ parse_config_list-Strict vs ps (rw (at, good, parse_configs) at e)
  ]
]

form-All :
    {A : Type 0} (P : A → Type 0) (parse : Json → Option (List A)) (o : Option Json) (xs : List A)
    → ((v : Json) (ys : List A) → parse v ≡ some ys → All P ys)
    → form parse o ≡ some xs
    → All P xs
form-All P parse none xs h e = subst (All P) (ap (λ o. elim o [ none ↦ [] | some d ↦ d ]) e) tt
form-All P parse (some v) xs h e = h v xs e

matrix_points-IsPoint : (o : ParamsOverride) → All (IsPoint o.matrix) (matrix_points o)
matrix_points-IsPoint o = elim (Bool-cases (length o.matrix == 0)) [
  | inl none_here ↦ rw none_here tt
  | inr some_here ↦ rw some_here (points_of-IsPoint o.matrix)
]

parse_fields-Strict :
    (id : String) (fs : List (String × Json)) (o : ParamsOverride)
    → parse_fields fs ≡ some o
    → Strict (id, o)
unfolding parse_fields
parse_fields-Strict id fs o e = elim (Bool-cases (any (λ f. not (known_field f)) fs)) [
  | inl bad ↦ absurd (let e' = rw (bad, parse_fields) at e in ground arith)
  | inr good ↦ elim (Bool-cases (is_none (lookup "matrix" fs) && is_none (lookup "configs" fs))) [
    | inl bad ↦ absurd (let e' = rw (good, bad, parse_fields) at e in ground arith)
    | inr has ↦ elim (Option-cases (form parse_matrix (lookup "matrix" fs))) [
      | inl n ↦ absurd (let e' = rw (good, has, n, parse_fields) at e in ground arith)
      | inr (m, at) ↦ elim (Option-cases (form parse_configs (lookup "configs" fs))) [
        | inl n ↦ absurd (let e' = rw (good, has, at, n, parse_fields) at e in ground arith)
        | inr (c, at') ↦ built m c at at' (rw (good, has, at, at', parse_fields) at e)
      ]
    ]
  ]
]
  where
    built :
        (m : Dims) (c : List Params)
        → form parse_matrix (lookup "matrix" fs) ≡ some m
        → form parse_configs (lookup "configs" fs) ≡ some c
        → (if ltb max_variants (override_size (record { matrix = m; configs = c })).0
            then none
            else some (record { matrix = m; configs = c }))
          ≡ some o
        → Strict (id, o)
    built m c at at' q =
        elim (Bool-cases
          (ltb max_variants (override_size (record { matrix = m; configs = c })).0)) [
            | inl over ↦ absurd (let q' = rw over at q in ground arith)
            | inr small ↦
                subst (λ x. Strict (id, x))
                  (ap (λ x. elim x [ none ↦ record { matrix = m; configs = c } | some d ↦ d ])
                    (rw small at q))
                  (
                    form-All StrictDim parse_matrix (lookup "matrix" fs) m parse_matrix-Strict at,
                    form-All StrictConfig parse_configs (lookup "configs" fs) c parse_configs-Strict
                        at',
                    variants_points (record { matrix = m; configs = c }) small,
                    matrix_points-IsPoint (record { matrix = m; configs = c }),
                    length-matrix_points (record { matrix = m; configs = c }),
                    (let fits = size_within (record { matrix = m; configs = c }) in
                        let count : ltb max_variants
                              (points (record { matrix = m; configs = c }) + length c)
                            ≡ false =
                          sym fits ∙ small in
                        ground arith),
                  )
          ]

parse_entries-Strict :
    (fs : List (String × Json)) (os : List (String × ParamsOverride))
    → parse_entries fs ≡ some os
    → All Strict os
unfolding parse_entries parse_override
parse_entries-Strict [] os e = subst (All Strict) (ap (λ o. elim o [ none ↦ [] | some d ↦ d ]) e) tt
parse_entries-Strict ((id, v) ∷ fs) os e = elim (Option-cases (decode_object v)) [
  | inl n ↦ absurd (let e' = rw (n, parse_override, parse_entries) at e in ground arith)
  | inr (gs, at) ↦ elim (Option-cases (parse_fields gs)) [
    | inl n ↦ absurd (let e' = rw (at, n, parse_override, parse_entries) at e in ground arith)
    | inr (o, p) ↦ elim (Option-cases (parse_entries fs)) [
      | inl n ↦ absurd (let e' = rw (at, p, n, parse_override, parse_entries) at e in ground arith)
      | inr (rest, r) ↦
          let e' = rw (at, p, r, parse_override, parse_entries) at e in
          subst (All Strict) (ap (λ o. elim o [ none ↦ [] | some d ↦ d ]) e')
            (parse_fields-Strict id gs o p, parse_entries-Strict fs rest r)
    ]
  ]
]

-- Every override of a params file that parses is strict: its dimensions have values, no value in
-- it has a null, and it is never refused afterwards, but expands to exactly the points of its
-- matrix, if it has one, in order, and then its configs. These are within MaxVariants together.
pub parse_overrides-Strict :
    (v : Json) (os : List (String × ParamsOverride)) → parse_overrides v ≡ some os → All Strict os
unfolding parse_overrides
parse_overrides-Strict v os e = elim (Option-cases (decode_object v)) [
  | inl n ↦ absurd (let e' = rw (n, parse_overrides) at e in ground arith)
  | inr (fs, at) ↦ parse_entries-Strict fs os (rw (at, parse_overrides) at e)
]

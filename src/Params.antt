-- ===== src/Params.antt =====
-- params.go, and matrixSize and Matrix of discovery.go: the variants that a job runs as. A map is
-- the list of its entries in key order, so sorting its keys does nothing more. A decoded JSON
-- document is a value of `Json`; decoding its text is encoding/json's.
pub mod Points
pub mod Expansion
pub mod Strict
use torx.Base.{
  ℕ, ◌+◌, ◌*◌, ◌-◌, ◌/◌, ◌^◌, String, List, [], ◌∷◌, ◌++◌, map, Option, none, some, Bool, true,
  false, not, ◌&&◌, ◌||◌, any, length, if◌then◌else◌, ◌==◌, ltb, str_eq,
}

-- A scalar is what its encoding says: no code reads a parameter's value.
mutual
  pub data Json : Type 0 where
    null : Json
    scalar : String → Json
    array : Items → Json
    object : Fields → Json

  pub data Items : Type 0 where
    no_items : Items
    item : Json → Items → Items

  pub data Fields : Type 0 where
    no_fields : Fields
    field : String → Json → Fields → Fields

abbrev pub items : Items → List Json
items no_items = []
items (item v is) = v ∷ items is

abbrev pub fields : Fields → List (String × Json)
fields no_fields = []
fields (field k v fs) = (k, v) ∷ fields fs

abbrev pub Params : Type 0
Params = List (String × Json)

abbrev pub Dims : Type 0
Dims = List (String × List Json)

pub record ParamsOverride : Type 0 where
  pub matrix : Dims
  pub configs : List Params

abbrev pub max_int : ℕ
max_int = 2 ^ 63 - 1

abbrev pub max_variants : ℕ
max_variants = 2 ^ 16

-- The second loop of matrixSize, over dimensions that are not empty.
pub size_loop : ℕ → Dims → ℕ × Bool
size_loop n [] = (n, true)
size_loop n ((_, values) ∷ dims) =
    let rest = size_loop (n * length values) dims in
    if ltb (max_int / length values) n then (max_int, false) else rest

abbrev pub has_empty : Dims → Bool
has_empty = any (λ d. length d.1 == 0)

-- The number of points, and whether it is exact.
unfoldable pub matrix_size : Dims → ℕ × Bool
unfolding size_loop
matrix_size dims = if has_empty dims then (0, true) else size_loop 1 dims

-- One dimension: each parameter set so far, with each of the values.
pub extend : String → List Json → List Params → List Params
extend k values [] = []
extend k values (base ∷ result) = map (λ v. base ++ (k, v) ∷ []) values ++ extend k values result

pub expand : List Params → Dims → List Params
unfolding extend
expand result [] = result
expand result ((k, values) ∷ dims) = expand (extend k values result) dims

-- Matrix: `none` is the panic.
unfoldable pub matrix_of : Dims → Option (List Params)
unfolding matrix_size expand
matrix_of dims =
    if ltb max_variants (matrix_size dims).0
    then none
    else if (matrix_size dims).0 == 0
    then some []
    else some (expand ([] ∷ []) dims)

-- `size` of an override.
unfoldable pub override_size : ParamsOverride → ℕ × Bool
unfolding matrix_size
override_size o =
    let n = length o.configs in
    let (m, exact) = matrix_size o.matrix in
    if length o.matrix == 0
    then (n, true)
    else if not exact || ltb (max_int - n) m
    then (max_int, false)
    else (n + m, true)

-- `variants` of an override: `none` is the refusal, or a panic of Matrix.
unfoldable pub variants : ParamsOverride → Option (List Params)
unfolding override_size matrix_of
variants o =
    if ltb max_variants (override_size o).0
    then none
    else if length o.matrix == 0
    then some o.configs
    else elim (matrix_of o.matrix) [ none ↦ none | some points ↦ some (points ++ o.configs) ]

-- rejectNulls: whether a value has a null in it.
mutual
  pub rejects : Json → Bool
  rejects null = true
  rejects (scalar _) = false
  rejects (array is) = rejects_items is
  rejects (object fs) = rejects_fields fs

  pub rejects_items : Items → Bool
  rejects_items no_items = false
  rejects_items (item v is) = rejects v || rejects_items is

  pub rejects_fields : Fields → Bool
  rejects_fields no_fields = false
  rejects_fields (field _ v fs) = rejects v || rejects_fields fs

-- Decoding into a map or a slice: null gives a nil one, which every caller refuses too.
pub decode_object : Json → Option (List (String × Json))
decode_object (object fs) = some (fields fs)
decode_object _ = none

pub decode_array : Json → Option (List Json)
decode_array (array is) = some (items is)
decode_array _ = none

pub lookup : String → List (String × Json) → Option Json
lookup k [] = none
lookup k ((k', v) ∷ fs) = if str_eq k' k then some v else lookup k fs

-- Parsing; the errors are one, `none`, so in which order they are looked for does not matter.
unfoldable pub parse_dims : List (String × Json) → Option Dims
unfolding decode_array rejects
parse_dims [] = some []
parse_dims ((k, v) ∷ fs) = elim (decode_array v) [
  | none ↦ none
  | some values ↦
      let rest = parse_dims fs in
      if length values == 0 || any rejects values
      then none
      else elim rest [ none ↦ none | some dims ↦ some ((k, values) ∷ dims) ]
]

unfoldable pub parse_matrix : Json → Option Dims
unfolding decode_object parse_dims
parse_matrix v = elim (decode_object v) [
  | none ↦ none
  | some fs ↦ if length fs == 0 then none else parse_dims fs
]

unfoldable pub parse_config_list : List Json → Option (List Params)
unfolding decode_object rejects
parse_config_list [] = some []
parse_config_list (v ∷ vs) = elim (decode_object v) [
  | none ↦ none
  | some p ↦
      let rest = parse_config_list vs in
      if any (λ f. rejects f.1) p then none else elim rest [ none ↦ none | some ps ↦ some (p ∷ ps) ]
]

unfoldable pub parse_configs : Json → Option (List Params)
unfolding decode_array parse_config_list
parse_configs v = elim (decode_array v) [
  | none ↦ none
  | some vs ↦ if length vs == 0 then none else parse_config_list vs
]

-- A form that is absent is empty.
abbrev pub form {ℓ} : {A : Type ℓ} → (Json → Option (List A)) → Option Json → Option (List A)
form parse none = some []
form parse (some v) = parse v

abbrev pub known_field : String × Json → Bool
known_field (k, _) = str_eq k "matrix" || str_eq k "configs"

abbrev pub is_none : Option Json → Bool
is_none none = true
is_none (some _) = false

unfoldable pub parse_fields : List (String × Json) → Option ParamsOverride
unfolding parse_matrix parse_configs override_size lookup
parse_fields fs =
    if any (λ f. not (known_field f)) fs
    then none
    else if is_none (lookup "matrix" fs) && is_none (lookup "configs" fs)
    then none
    else elim (form parse_matrix (lookup "matrix" fs)) [
      | none ↦ none
      | some m ↦ elim (form parse_configs (lookup "configs" fs)) [
        | none ↦ none
        | some c ↦
            let o : ParamsOverride = record { matrix = m; configs = c } in
            if ltb max_variants (override_size o).0 then none else some o
      ]
    ]

unfoldable pub parse_override : Json → Option ParamsOverride
unfolding parse_fields decode_object
parse_override v = elim (decode_object v) [ none ↦ none | some fs ↦ parse_fields fs ]

unfoldable pub parse_entries : List (String × Json) → Option (List (String × ParamsOverride))
unfolding parse_override
parse_entries [] = some []
parse_entries ((id, v) ∷ fs) = elim (parse_override v) [
  | none ↦ none
  | some o ↦ elim (parse_entries fs) [ none ↦ none | some os ↦ some ((id, o) ∷ os) ]
]

-- ParseParamsOverrides, of the decoded document.
unfoldable pub parse_overrides : Json → Option (List (String × ParamsOverride))
unfolding parse_entries decode_object
parse_overrides v = elim (decode_object v) [ none ↦ none | some fs ↦ parse_entries fs ]

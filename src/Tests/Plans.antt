-- ===== src/Tests/Plans.antt =====
-- Runs of discovery on small inputs: a params file and a job with a matrix of its own.
use torx.Base.{
  ℕ, ◌⊎◌, ◌≤◌, any, ◌==◌, ◌↔◌, ◌+◌, ◌≤◌, ◌<◌, ◌≡◌, ◌⊎◌, refl, String, List, [], ◌∷◌, ◌++◌, none,
  some, Bool, true, false, length, All, if◌then◌else◌, leb, str_eq,
}
use torx.Params.{
  Json, scalar, array, object, item, no_items, field, no_fields, Params, Dims, ParamsOverride,
  max_int, max_variants, matrix_size, matrix_of, variants, parse_overrides,
}
use torx.Params.Points.{product, IsPoint, points_of}
use torx.Params.Expansion.{points, matrix_size_lem, matrix_lem, variants_lem}
use torx.Suite.{SuiteResult, flaky, fail, suite_ok, counts, Persisted, suite_ok_lem}
use torx.Minimize.{ddmin, ddmin_lem}
use torx.Params.Strict.{Strict, parse_overrides-Strict}
use torx.Discovery.{Job, JobRequest, discover}
use torx.Discovery.Selection.{Selected, has_request, discover-Selected}

abbrev dims : Dims
dims = ("n", scalar "1" ∷ scalar "3" ∷ []) ∷ ("mode", scalar "a" ∷ []) ∷ []

matrix_size_example :
    matrix_size dims
    ≡ (if leb (product dims) max_int then (product dims, true) else (max_int, false))
matrix_size_example = matrix_size_lem dims

matrix_example :
    ((max_variants < product dims) × (matrix_of dims ≡ none))
    ⊎ ((product dims ≤ max_variants)
        × (matrix_of dims ≡ some (points_of dims))
        × (length (points_of dims) ≡ product dims)
        × All (IsPoint dims) (points_of dims))
matrix_example = matrix_lem dims

abbrev sweep : ParamsOverride
sweep = record { matrix = dims; configs = [] }

variants_example :
    ((max_variants < points sweep + 0) × (variants sweep ≡ none))
    ⊎ ((points sweep + 0 ≤ max_variants)
        × ((ps : List Params) × (variants sweep ≡ some (ps ++ [])) × (length ps ≡ points sweep)))
variants_example = variants_lem sweep

abbrev file : Json
file = object (
    field "pkg.Job"
      (object (
        field "matrix" (object (field "n" (array (item (scalar "1") no_items)) no_fields))
          no_fields))
      no_fields)

abbrev parsed_file : List (String × ParamsOverride)
parsed_file = ("pkg.Job", record { matrix = ("n", scalar "1" ∷ []) ∷ []; configs = [] }) ∷ []

file_parses : parse_overrides file ≡ some parsed_file
unfolding parse_overrides
file_parses = refl

parse_overrides-Strict_example : All Strict parsed_file
parse_overrides-Strict_example = parse_overrides-Strict file parsed_file file_parses

abbrev encoded : Json → String
encoded (scalar s) = s
encoded _ = "?"

abbrev job : Job
job = record {
  factory_returns = true;
  declared = some (some ((("n", scalar "1") ∷ []) ∷ (("n", scalar "2") ∷ []) ∷ []));
  resolver = none;
}

abbrev request : String → JobRequest
request n = record { id = "pkg.Job"; params = ("n", scalar n) ∷ []; failed = false }

abbrev one_pattern : List (String → Bool)
one_pattern = (λ s. str_eq s "pkg.Job[n=1]") ∷ []

one_selected :
    discover encoded one_pattern parsed_file (("pkg.Job", job) ∷ []) ≡ some (request "1" ∷ [])
unfolding discover
one_selected = refl

discover-Selected_example :
    All (Selected encoded one_pattern) (request "1" ∷ [])
    × All (λ o. has_request encoded (request "1" ∷ []) o.0 ≡ true) parsed_file
discover-Selected_example =
    discover-Selected encoded one_pattern parsed_file (("pkg.Job", job) ∷ []) (request "1" ∷ [])
      one_selected

abbrev flaky_run : SuiteResult
flaky_run = record {
  jobs =
      record {
        id = "a";
        params = [];
        status = flaky;
        summary = "";
        dirty = false;
        persist_err = "";
      }
      ∷ [];
  cancelled = false;
  persist_err = "";
}

suite_ok_example : (suite_ok flaky_run ≡ true) ↔ (
    (flaky_run.cancelled ≡ false)
    × (str_eq flaky_run.persist_err "" ≡ true)
    × (counts flaky_run fail ≡ 0)
    × All Persisted flaky_run.jobs)
suite_ok_example = suite_ok_lem flaky_run

-- Three is what makes a set illegal.
abbrev has_three : ℕ → List ℕ → Bool
has_three _ ks = any (λ k. k == 3) ks

abbrev never : ℕ → Bool
never _ = false

ddmin_example :
    (r : List ℕ) × (ddmin has_three never (1 ∷ 2 ∷ 3 ∷ 4 ∷ 5 ∷ []) 0 ≡ some r)
    × (length r ≤ 5)
    × ((r ≡ 1 ∷ 2 ∷ 3 ∷ 4 ∷ 5 ∷ []) ⊎ ((k : ℕ) × (has_three k r ≡ true)))
ddmin_example = ddmin_lem has_three never (1 ∷ 2 ∷ 3 ∷ 4 ∷ 5 ∷ []) 0

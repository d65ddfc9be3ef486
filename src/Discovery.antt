-- ===== src/Discovery.antt =====
-- discovery.go: the requests that the driver schedules. A job is what discovery sees of it: whether
-- its factory returns, what its Matrix declares, and its resolver; a panic of one of them is a
-- failure like an error. The encoding of a value as JSON and the matching of a pattern are
-- parameters, the text of an error is left out.
pub mod Selection
use Prim.Native.String.{◌++◌ as joined}
use torx.Base.{
  ℕ, String, List, [], ◌∷◌, ◌++◌, map, Option, none, some, Bool, true, false, not, ◌&&◌, any,
  length, if◌then◌else◌, ◌==◌, ltb, str_eq,
}
use torx.Params.{Json, Params, ParamsOverride, max_variants, variants}

-- `declared` is `none` for a job that is not Parametrized, `some none` for a Matrix that panics.
pub record Job : Type 0 where
  pub factory_returns : Bool
  pub declared : Option (Option (List Params))
  pub resolver : Option (Params → Option Params)

pub record JobRequest : Type 0 where
  pub id : String
  pub params : Params
  pub failed : Bool

abbrev join : List String → String
join [] = ""
join (part ∷ []) = part
join (part ∷ rest) = joined part (joined "," (join rest))

module _ (encode : Json → String) where
  unfoldable pub variant_id : String → Params → String
  variant_id base params =
      if length params == 0
      then base
      else joined base
          (joined "[" (joined (join (map (λ f. joined f.0 (joined "=" (encode f.1))) params)) "]"))

  abbrev pub among : String → List String → Bool
  among s = any (λ t. str_eq t s)

  -- checkDuplicateVariants: whether two have the same id.
  pub duplicated : String → List String → List Params → Bool
  unfolding variant_id
  duplicated id seen [] = false
  duplicated id seen (p ∷ ps) =
      let rest = duplicated id (variant_id id p ∷ seen) ps in
      if among (variant_id id p) seen then true else rest

  unfoldable pub variants_of : Job → Option (List Params)
  variants_of job = elim job.declared [
    | none ↦ some ([] ∷ [])
    | some none ↦ none
    | some (some m) ↦ if length m == 0 then some ([] ∷ []) else some m
  ]

  -- The raw parameter sets: the first half of discoverJob.
  unfoldable pub raw_params : Job → Option ParamsOverride → Option (List Params)
  unfolding variants_of variants
  raw_params job override = if not job.factory_returns then none else elim override [
    | some o ↦ variants o
    | none ↦ elim (variants_of job) [
      | none ↦ none
      | some raw ↦ if ltb max_variants (length raw) then none else some raw
    ]
  ]

  unfoldable pub resolve_params : Job → Params → Option Params
  resolve_params job p = elim job.resolver [ none ↦ some p | some resolve ↦ resolve p ]

  -- The requests, and the resolved sets among them.
  pub resolve_all : String → Job → List Params → List JobRequest × List Params
  unfolding resolve_params
  resolve_all id job [] = ([], [])
  resolve_all id job (p ∷ raw) =
      let (reqs, resolved) = resolve_all id job raw in
      elim (resolve_params job p) [
        | none ↦ (record { id = id; params = p; failed = true } ∷ reqs, resolved)
        | some cp ↦ (record { id = id; params = cp; failed = false } ∷ reqs, cp ∷ resolved)
      ]

  unfoldable pub discover_job : String → Job → Option ParamsOverride → Option (List JobRequest)
  unfolding raw_params resolve_all duplicated
  discover_job id job override = elim (raw_params job override) [
    | none ↦ none
    | some raw ↦
        let (reqs, resolved) = resolve_all id job raw in
        if duplicated id [] resolved then none else some reqs
  ]

  unfoldable pub matches_any : List (String → Bool) → String → Bool
  matches_any res id = if length res == 0 then true else any (λ re. re id) res

  abbrev pub override_of : String → List (String × ParamsOverride) → Option ParamsOverride
  override_of id [] = none
  override_of id ((k, o) ∷ os) = if str_eq k id then some o else override_of id os

  -- The requests of one job that match.
  pub selected : List (String → Bool) → String → List JobRequest → List JobRequest
  unfolding variant_id matches_any
  selected res id [] = []
  selected res id (r ∷ reqs) =
      let rest = selected res id reqs in
      if matches_any res (variant_id id r.params) then r ∷ rest else rest

  pub job_requests :
      List (String → Bool) → List (String × ParamsOverride) → String → Job → List JobRequest
  unfolding selected discover_job matches_any
  job_requests res overrides id job = elim (discover_job id job (override_of id overrides)) [
    | none ↦ if matches_any res id then record { id = id; params = []; failed = true } ∷ [] else []
    | some reqs ↦ selected res id reqs
  ]

  -- The loop over the registered jobs; the second list is the jobs that were selected.
  pub discover_jobs :
      List (String → Bool)
      → List (String × ParamsOverride)
      → List (String × Job)
      → List JobRequest × List String
  unfolding job_requests
  discover_jobs res overrides [] = ([], [])
  discover_jobs res overrides ((id, job) ∷ jobs) =
      let (requests, chosen) = discover_jobs res overrides jobs in
      let here = job_requests res overrides id job in
      (here ++ requests, if length here == 0 then chosen else id ∷ chosen)

  pub compile_all : (String → Option (String → Bool)) → List String → Option (List (String → Bool))
  compile_all compile [] = some []
  compile_all compile (p ∷ ps) = elim (compile p) [
    | none ↦ none
    | some re ↦ elim (compile_all compile ps) [ none ↦ none | some res ↦ some (re ∷ res) ]
  ]

  abbrev pub registered : String → List (String × Job) → Bool
  registered id = any (λ j. str_eq j.0 id)

  unfoldable pub discover :
      List (String → Bool)
      → List (String × ParamsOverride)
      → List (String × Job)
      → Option (List JobRequest)
  unfolding discover_jobs
  discover res overrides jobs =
      let (requests, chosen) = discover_jobs res overrides jobs in
      if any (λ o. not (registered o.0 jobs)) overrides
      then none
      else if any (λ o. not (among o.0 chosen)) overrides
      then none
      else some requests

  -- DiscoverWith, over the registered jobs in the order of their ids.
  unfoldable pub discover_with :
      (String → Option (String → Bool))
      → List String
      → List (String × ParamsOverride)
      → List (String × Job)
      → Option (List JobRequest)
  unfolding compile_all discover
  discover_with compile patterns overrides jobs = elim (compile_all compile patterns) [
    | none ↦ none
    | some res ↦ discover res overrides jobs
  ]

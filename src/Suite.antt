-- ===== src/Suite.antt =====
-- result.go: the result of a job and of a run. Times, data and traces are left out; a text that
-- is empty when there is none is "".
use torx.Base.{
  ℕ, ◌+◌, ◌≡◌, ◌↔◌, refl, String, List, [], ◌∷◌, Bool, true, false, not, ◌||◌, All, if◌then◌else◌,
  str_eq, arith,
}
use torx.Params.{Params}

pub data Status : Type 0 where
  pass fail ignore flaky : Status

abbrev pub same_status : Status → Status → Bool
same_status pass pass = true
same_status fail fail = true
same_status ignore ignore = true
same_status flaky flaky = true
same_status _ _ = false

pub record JobResult : Type 0 where
  pub id : String
  pub params : Params
  pub status : Status
  pub summary : String
  pub dirty : Bool
  pub persist_err : String

pub record SuiteResult : Type 0 where
  pub jobs : List JobResult
  pub cancelled : Bool
  pub persist_err : String

-- Counts: a status that the map lacks counts 0.
unfoldable pub count_jobs : List JobResult → Status → ℕ
count_jobs [] s = 0
count_jobs (j ∷ jobs) s = (if same_status j.status s then 1 else 0) + count_jobs jobs s

unfoldable pub counts : SuiteResult → Status → ℕ
unfolding count_jobs
counts r = count_jobs r.jobs

-- The loop of Ok.
unfoldable pub jobs_ok : List JobResult → Bool
jobs_ok [] = true
jobs_ok (j ∷ jobs) =
    let rest = jobs_ok jobs in
    if same_status j.status fail || not (str_eq j.persist_err "") then false else rest

unfoldable pub suite_ok : SuiteResult → Bool
unfolding jobs_ok
suite_ok r = if r.cancelled || not (str_eq r.persist_err "") then false else jobs_ok r.jobs

abbrev pub Persisted : JobResult → Type 0
Persisted j = str_eq j.persist_err "" ≡ true

jobs_ok_lem :
    (jobs : List JobResult)
    → (jobs_ok jobs ≡ true) ↔ ((count_jobs jobs fail ≡ 0) × All Persisted jobs)
unfolding jobs_ok count_jobs
jobs_ok_lem [] = ((λ h. (refl, tt)), (λ h. refl))
jobs_ok_lem (j ∷ jobs) = (
  (λ h.
      let (no_fail, kept) = (jobs_ok_lem jobs).0 (ground arith) in
      (ground arith, (ground arith, kept))),
  (λ h. let rest = (jobs_ok_lem jobs).1 (ground arith, h.1.1) in ground (arith, h.0, h.1.0)),
)

-- A run is Ok exactly when it was not cancelled, Counts has no failed job, and the results of the
-- run and of each job were persisted where that was asked for.
pub suite_ok_lem :
    (r : SuiteResult)
    → (suite_ok r ≡ true) ↔ (
        (r.cancelled ≡ false)
        × (str_eq r.persist_err "" ≡ true)
        × (counts r fail ≡ 0)
        × All Persisted r.jobs)
unfolding suite_ok counts
suite_ok_lem r = (
  (λ h.
      let (no_fail, kept) = (jobs_ok_lem r.jobs).0 (ground arith) in
      (ground arith, ground arith, no_fail, kept)),
  (λ h. let rest = (jobs_ok_lem r.jobs).1 (h.2, h.3) in ground (arith, h.0, h.1)),
)

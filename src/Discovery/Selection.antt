-- ===== src/Discovery/Selection.antt =====
-- discovery.go: what discovery gives the driver.
use text.Mathlib.TextPositions.{eq_refl}
use torx.Base.{
  ◌≡◌, inl, inr, refl, sym, ap, subst, ◌∙◌, String, List, [], ◌∷◌, ◌++◌, Option, none, some, Bool,
  true, false, not, ◌||◌, any, length, All, All-append, ◌==◌, arith, Bool-cases, Option-cases,
  str_eq, eq_iff,
}
use torx.Params.{Json, Params, ParamsOverride}
use torx.Discovery.{
  Job, JobRequest, variant_id, among, duplicated, resolve_params, resolve_all, raw_params,
  discover_job, matches_any, override_of, selected, job_requests, discover_jobs, registered,
  discover,
}

module _ (encode : Json → String) where
  -- A request stands under a registered job and matches; a failed job stands under its own id.
  abbrev pub Selected : List (String → Bool) → JobRequest → Type 0
  Selected res r = (matches_any encode res (variant_id encode r.id r.params)) ≡ true

  -- A request of this job.
  abbrev pub has_request : List JobRequest → String → Bool
  has_request rs id = any (λ r. str_eq r.id id) rs

  resolve_all_ids :
      (id : String) (job : Job) (raw : List Params)
      → All (λ r. r.id ≡ id) (resolve_all encode id job raw).0
  unfolding resolve_all
  resolve_all_ids id job [] = tt
  resolve_all_ids id job (p ∷ raw) = elim (Option-cases (resolve_params encode job p)) [
    | inl n ↦ rw (n, resolve_all) (refl, resolve_all_ids id job raw)
    | inr (cp, e) ↦ rw (e, resolve_all) (refl, resolve_all_ids id job raw)
  ]

  discover_job_ids :
      (id : String) (job : Job) (override : Option ParamsOverride) (reqs : List JobRequest)
      → discover_job encode id job override ≡ some reqs
      → All (λ r. r.id ≡ id) reqs
  unfolding discover_job
  discover_job_ids id job override reqs e = elim (Option-cases (raw_params encode job override)) [
    | inl n ↦ absurd (let e' = rw (n, discover_job) at e in ground arith)
    | inr (raw, at) ↦
        elim (Bool-cases (duplicated encode id [] (resolve_all encode id job raw).1)) [
          | inl dup ↦ absurd (let e' = rw (at, dup, discover_job) at e in ground arith)
          | inr once ↦
              let e' = rw (at, once, discover_job) at e in
              subst (All (λ r. r.id ≡ id)) (ap (λ o. elim o [ none ↦ [] | some d ↦ d ]) e')
                (resolve_all_ids id job raw)
        ]
  ]

  abbrev Of : List (String → Bool) → String → JobRequest → Type 0
  Of res id r = (r.id ≡ id) × Selected res r

  selected-Of :
      (res : List (String → Bool)) (id : String) (reqs : List JobRequest)
      → All (λ r. r.id ≡ id) reqs
      → All (Of res id) (selected encode res id reqs)
  unfolding selected
  selected-Of res id [] h = tt
  selected-Of res id (r ∷ reqs) h =
      elim (Bool-cases (matches_any encode res (variant_id encode id r.params))) [
        | inl t ↦
            rw (t, selected)
              (
                (
                  h.0,
                  subst (λ i. matches_any encode res (variant_id encode i r.params) ≡ true)
                      (sym h.0) t,
                ),
                selected-Of res id reqs h.1,
              )
        | inr t ↦ rw (t, selected) (selected-Of res id reqs h.1)
      ]

  job_requests-Of :
      (res : List (String → Bool)) (overrides : List (String × ParamsOverride)) (id : String)
      (job : Job)
      → All (Of res id) (job_requests encode res overrides id job)
  unfolding job_requests variant_id
  job_requests-Of res overrides id job =
      elim (Option-cases (discover_job encode id job (override_of encode id overrides))) [
        | inl n ↦ elim (Bool-cases (matches_any encode res id)) [
          | inl t ↦ rw (n, t, job_requests) ((refl, t), tt)
          | inr t ↦ rw (n, t, job_requests) tt
        ]
        | inr (reqs, e) ↦
            rw (e, job_requests)
              (selected-Of res id reqs
                (discover_job_ids id job (override_of encode id overrides) reqs e))
      ]

  All-Selected :
      (res : List (String → Bool)) (id : String) (rs : List JobRequest)
      → All (Of res id) rs
      → All (Selected res) rs
  All-Selected res id [] h = tt
  All-Selected res id (r ∷ rs) h = (h.0.1, All-Selected res id rs h.1)

  jobs-Selected :
      (res : List (String → Bool)) (overrides : List (String × ParamsOverride))
      (jobs : List (String × Job))
      → All (Selected res) (discover_jobs encode res overrides jobs).0
  unfolding discover_jobs
  jobs-Selected res overrides [] = tt
  jobs-Selected res overrides ((id, job) ∷ jobs) =
      All-append (Selected res) (job_requests encode res overrides id job)
        (discover_jobs encode res overrides jobs).0
        (All-Selected res id _ (job_requests-Of res overrides id job))
        (jobs-Selected res overrides jobs)

  has_request-append :
      (rs qs : List JobRequest) (id : String)
      → has_request (rs ++ qs) id ≡ (has_request rs id || has_request qs id)
  has_request-append [] qs id = ground arith
  has_request-append (r ∷ rs) qs id = ground (arith, has_request-append rs qs id)

  first-Of :
      (res : List (String → Bool)) (id : String) (rs : List JobRequest)
      → All (Of res id) rs
      → (length rs == 0) ≡ false
      → has_request rs id ≡ true
  first-Of res id [] h e = absurd (ground arith)
  first-Of res id (r ∷ rs) h e = rw (h.0.0) (rw (eq_refl id) refl)

  chosen_requests :
      (res : List (String → Bool)) (overrides : List (String × ParamsOverride))
      (jobs : List (String × Job)) (id : String)
      → among encode id (discover_jobs encode res overrides jobs).1 ≡ true
      → has_request (discover_jobs encode res overrides jobs).0 id ≡ true
  unfolding discover_jobs
  chosen_requests res overrides [] id h = absurd (ground arith)
  chosen_requests res overrides ((k, job) ∷ jobs) id h =
      let rs = job_requests encode res overrides k job in
      let qs = (discover_jobs encode res overrides jobs).0 in
      let both = has_request-append rs qs id in
      elim (Bool-cases (length rs == 0)) [
        | inl empty ↦
            let later = chosen_requests res overrides jobs id (rw (empty, discover_jobs) at h) in
            both ∙ ground arith
        | inr full ↦ elim (Bool-cases (str_eq k id)) [
          | inl same ↦
              let first : has_request rs k ≡ true =
                first-Of res k rs (job_requests-Of res overrides k job) full in
              let here : has_request rs id ≡ true =
                subst (λ i. has_request rs i ≡ true) ((eq_iff k id).0 same) first in
              both ∙ ground arith
          | inr other ↦
              let h' = rw (full, discover_jobs) at h in
              let later = chosen_requests res overrides jobs id (ground (arith, h')) in
              both ∙ ground arith
        ]
      ]

  all-requested :
      (res : List (String → Bool)) (overrides os : List (String × ParamsOverride))
      (jobs : List (String × Job))
      → any (λ o. not (among encode o.0 (discover_jobs encode res overrides jobs).1)) os ≡ false
      → All (λ o. has_request (discover_jobs encode res overrides jobs).0 o.0 ≡ true) os
  all-requested res overrides [] jobs h = tt
  all-requested res overrides (o ∷ os) jobs h = (
    chosen_requests res overrides jobs o.0 (ground arith),
    all-requested res overrides os jobs (ground arith),
  )

  -- What DiscoverWith returns: every request matches a pattern, if there are any, and every job that
  -- an override names has a request, so no override is passed over in silence.
  pub discover-Selected :
      (res : List (String → Bool)) (overrides : List (String × ParamsOverride))
      (jobs : List (String × Job)) (requests : List JobRequest)
      → discover encode res overrides jobs ≡ some requests
      → All (Selected res) requests × All (λ o. has_request requests o.0 ≡ true) overrides
  unfolding discover
  discover-Selected res overrides jobs requests e =
      elim (Bool-cases (any (λ o. not (registered encode o.0 jobs)) overrides)) [
        | inl bad ↦ absurd (let e' = rw (bad, discover) at e in ground arith)
        | inr good ↦
            elim (Bool-cases (
              any (λ o. not (among encode o.0 (discover_jobs encode res overrides jobs).1))
                overrides)) [
                  | inl bad ↦ absurd (let e' = rw (good, bad, discover) at e in ground arith)
                  | inr all ↦
                      subst
                        (λ rs.
                          All (Selected res) rs × All (λ o. has_request rs o.0 ≡ true) overrides)
                        (ap (λ o. elim o [ none ↦ [] | some d ↦ d ])
                          (rw (good, all, discover) at e))
                        (
                          jobs-Selected res overrides jobs,
                          all-requested res overrides overrides jobs all,
                        )
                ]
      ]

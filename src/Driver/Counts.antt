-- ===== src/Driver/Counts.antt =====
-- driver.go: where the requests of a run are, and how many jobs run at once.
use torx.Base.{
  ℕ, suc, ◌+◌, ◌≤◌, ◌<◌, ◌≡◌, ◌⊎◌, inl, inr, refl, subst, ◌∙◌, String, List, [], ◌∷◌, map, Option,
  Bool, true, false, any, not, ◌&&◌, length, length-append, length-remove, get_elem?, get_elem?-lt,
  remove, if◌then◌else◌, ◌==◌, ltb, arith, Bool-cases, Option-cases,
}
use torx.Base.Sort.{count_if, count-append, count-remove, count-map, count-sort_stable}
use torx.Node.{Node}
use torx.Spec.{PoolSpec, size}
use torx.Pool.{Pool, Allocated, ok, err, allocate, can_allocate, new_pool}
use torx.Params.{Json}
use torx.Discovery.{JobRequest}
use torx.Suite.{JobResult}
use torx.Driver.Stopping.{may_stop, begin_stop, run_stop}
use torx.Driver.{
  Plan, Running, State, Place, Event, drive, finish, receive, outer, top, waiting, over, scanning,
  allocating, fail_result, admit, begin, launch, go_on, end_job, launched, take_result, at_receive,
  step, run, at_once, concluded, leave, after,
}

-- How many of the requests that pass a test are pending, running, waiting or recorded.
abbrev pub tally : (JobRequest → Bool) → State → ℕ
tally p s =
    count_if (λ x. p x.req) s.pending
    + count_if (λ x. p x.req) s.running
    + count_if (λ f. p f.0) s.finished
    + count_if (λ f. p f.0) s.recorded

module _ (encode : Json → String) (lookup : String → Option (JobRequest → Option PoolSpec)) where
  admit-count :
      (p : JobRequest → Bool) (pool : Pool) (rs : List JobRequest)
      → count_if (λ f. p f.0) (admit encode lookup pool rs).0
          + count_if (λ x. p x.req) (admit encode lookup pool rs).1
        ≡ count_if p rs
  unfolding admit
  admit-count p pool [] = refl
  admit-count p pool (r ∷ rs) = ground (arith, admit-count p pool rs)

  begin-tally :
      (p : JobRequest → Bool) (nodes : List Node) (rs : List JobRequest)
      → tally p (begin encode lookup nodes rs) ≡ count_if p rs
  unfolding begin
  begin-tally p nodes rs = omega (
    arith,
    count-sort_stable (λ (a b : Plan). ltb (size b.spec) (size a.spec)) (λ x. p x.req)
        (admit encode lookup (new_pool nodes) rs).1,
    admit-count p (new_pool nodes) rs,
  )

  launch-tally :
      (p : JobRequest → Bool) (pl : Plan) (s : State) (a : Allocated)
      → tally p (launch encode lookup pl s a) ≡ (if p pl.req then 1 else 0) + tally p s
  unfolding launch
  launch-tally p pl s (ok sub) = omega (
    arith,
    count-append (λ (x : Running). p x.req) s.running
        (record { req = pl.req; handle = length s.sys.subs } ∷ []),
  )
  launch-tally p pl s (err e) = omega (
    arith,
    count-append (λ (f : JobRequest × JobResult). p f.0) s.recorded
        ((pl.req, fail_result encode lookup pl.req) ∷ []),
  )

  go_on-tally :
      (p : JobRequest → Bool) (max : ℕ) (ended : Bool) (s : State) (at : Place)
      → tally p (go_on encode lookup max ended s at) ≡ tally p s
  unfolding go_on
  go_on-tally p max ended s outer = refl
  go_on-tally p max ended s top = ground arith
  go_on-tally p max ended s (scanning k) = ground arith
  go_on-tally p max ended s (allocating k) = elim (Option-cases (get_elem? s.pending k)) [
    | inl n ↦ rw (n, go_on) refl
    | inr (pl, e) ↦
        rw (e, go_on)
          (omega (
            arith,
            launch-tally p pl (record s { pending = remove k s.pending })
                (allocate s.sys.pool pl.spec).1,
            count-remove (λ (x : Plan). p x.req) s.pending k pl e,
          ))
  ]
  go_on-tally p max ended s waiting = refl
  go_on-tally p max ended s over = refl

  step-tally :
      (p : JobRequest → Bool) (max : ℕ) (exit_first : Bool) (s : State) (e : Event)
      → tally p (step encode lookup max exit_first s e) ≡ tally p s
  unfolding step end_job take_result
  step-tally p max exit_first s (drive ended) = go_on-tally p max ended s s.place
  step-tally p max exit_first s (finish i answer) = elim (Option-cases (get_elem? s.running i)) [
    | inl n ↦ rw (n, step) refl
    | inr (r, e) ↦
        rw (e, step)
          (omega (
            arith,
            count-remove (λ (x : Running). p x.req) s.running i r e,
            count-append (λ (f : JobRequest × JobResult). p f.0) s.finished
                ((r.req, launched encode lookup r.req answer) ∷ []),
          ))
  ]
  step-tally p max exit_first s (receive i ended) = elim (Option-cases (get_elem? s.finished i)) [
    | inl n ↦ rw (n, step) refl
    | inr (f, e) ↦ elim (Bool-cases (at_receive encode lookup s.place)) [
      | inr no_receive ↦ rw (e, no_receive, step) refl
      | inl there ↦
          rw (e, there, step)
            (omega (
              arith,
              count-remove (λ (x : JobRequest × JobResult). p x.0) s.finished i f e,
              count-append (λ (x : JobRequest × JobResult). p x.0) s.recorded (f ∷ []),
            ))
    ]
  ]

  run-tally :
      (p : JobRequest → Bool) (max : ℕ) (exit_first : Bool) (s : State) (es : List Event)
      → tally p (run encode lookup max exit_first s es) ≡ tally p s
  unfolding run
  run-tally p max exit_first s [] = refl
  run-tally p max exit_first s (e ∷ es) =
      run-tally p max exit_first (step encode lookup max exit_first s e) es
      ∙ step-tally p max exit_first s e

  -- Where the driver may launch a job, and where it is done.
  abbrev pub Fits : ℕ → ℕ → Place → Type 0
  Fits max active outer = Unit
  Fits max active top = Unit
  Fits max active waiting = 0 < active
  Fits max active over = active ≡ 0
  Fits max active (scanning k) = active < max
  Fits max active (allocating k) = active < max

  pub record Sized (max : ℕ) (s : State) : Type 0 where
    pub active_is : s.active ≡ length s.running + length s.finished
    pub bounded : s.active ≤ max
    pub fits : Fits max s.active s.place

  moved :
      (max : ℕ) (s : State) (at : Place)
      → Sized max s
      → Fits max s.active at
      → Sized max (record s { place = at })
  moved max s at h f = record { active_is = h.active_is; bounded = h.bounded; fits = f }

  leave-Sized : (max : ℕ) (s : State) → Sized max s → Sized max (leave encode lookup s)
  leave-Sized max s h = elim (Bool-cases (s.active == 0)) [
    | inl none_active ↦ rw none_active (moved max s over h (ground arith))
    | inr some_active ↦ rw some_active (moved max s waiting h (ground arith))
  ]

  launch-Sized :
      (max : ℕ) (p : Plan) (s : State) (a : Allocated)
      → Sized max s
      → s.active < max
      → Sized max (launch encode lookup p s a)
  unfolding launch
  launch-Sized max p s (ok sub) h f = record {
    active_is = omega (
      arith,
      h.active_is,
      length-append s.running (record { req = p.req; handle = length s.sys.subs } ∷ []),
    );
    bounded = f;
    fits = tt;
  }
  launch-Sized max p s (err e) h f = record {
    active_is = h.active_is;
    bounded = h.bounded;
    fits = tt;
  }

  go_on-Sized :
      (max : ℕ) (ended : Bool) (s : State) (at : Place)
      → s.place ≡ at
      → Sized max s
      → Sized max (go_on encode lookup max ended s at)
  unfolding go_on
  go_on-Sized max ended s outer e h = elim (Bool-cases (length s.pending == 0 && s.active == 0)) [
    | inl t ↦ rw t (moved max s over h (ground arith))
    | inr t ↦ rw t (moved max s top h tt)
  ]
  go_on-Sized max ended s top e h =
      elim (Bool-cases (not s.stop && not ended && ltb s.active max)) [
        | inl t ↦ rw t (moved max s (scanning 0) h (ground arith))
        | inr t ↦ rw t (leave-Sized max s h)
      ]
  go_on-Sized max ended s (scanning k) e h =
      let f : s.active < max = subst (Fits max s.active) e h.fits in
      elim (Option-cases (get_elem? s.pending k)) [
        | inl n ↦ rw (n, go_on) (leave-Sized max s h)
        | inr (p, at) ↦ elim (Bool-cases (can_allocate s.sys.pool p.spec)) [
          | inl t ↦ rw (at, t, go_on) (moved max s (allocating k) h f)
          | inr t ↦ rw (at, t, go_on) (moved max s (scanning (suc k)) h f)
        ]
      ]
  go_on-Sized max ended s (allocating k) e h =
      let f : s.active < max = subst (Fits max s.active) e h.fits in
      elim (Option-cases (get_elem? s.pending k)) [
        | inl n ↦ rw (n, go_on) h
        | inr (p, at) ↦
            rw (at, go_on)
              (launch-Sized max p (record s { pending = remove k s.pending })
                (allocate s.sys.pool p.spec).1
                (record { active_is = h.active_is; bounded = h.bounded; fits = h.fits }) f)
      ]
  go_on-Sized max ended s waiting e h = h
  go_on-Sized max ended s over e h = h

  received :
      (at : Place) (active : ℕ) (max : ℕ)
      → at_receive encode lookup at ≡ true
      → Fits max active at
      → 0 < active
  received waiting active max r f = f
  received outer active max r f = absurd (cc)
  received top active max r f = absurd (cc)
  received over active max r f = absurd (cc)
  received (scanning k) active max r f = absurd (cc)
  received (allocating k) active max r f = absurd (cc)

  step-Sized :
      (max : ℕ) (exit_first : Bool) (s : State) (e : Event)
      → Sized max s
      → Sized max (step encode lookup max exit_first s e)
  unfolding step end_job take_result
  step-Sized max exit_first s (drive ended) h = go_on-Sized max ended s s.place refl h
  step-Sized max exit_first s (finish i answer) h = elim (Option-cases (get_elem? s.running i)) [
    | inl n ↦ rw (n, step) h
    | inr (r, e) ↦
        rw (e, step)
          (record {
            active_is = omega (
              arith,
              h.active_is,
              length-remove s.running i (get_elem?-lt s.running i e),
              length-append s.finished ((r.req, launched encode lookup r.req answer) ∷ []),
            );
            bounded = h.bounded;
            fits = h.fits;
          })
  ]
  step-Sized max exit_first s (receive i ended) h = elim (Option-cases (get_elem? s.finished i)) [
    | inl n ↦ rw (n, step) h
    | inr (f, e) ↦ elim (Bool-cases (at_receive encode lookup s.place)) [
      | inr no_receive ↦ rw (e, no_receive, step) h
      | inl there ↦
          let some_active = received s.place s.active max there h.fits in
          rw (e, there, step)
            (record {
              active_is = omega (
                arith,
                h.active_is,
                some_active,
                length-remove s.finished i (get_elem?-lt s.finished i e),
              );
              bounded = omega (arith, h.bounded);
              fits = tt;
            })
    ]
  ]

  pub run-Sized :
      (max : ℕ) (exit_first : Bool) (s : State) (es : List Event)
      → Sized max s
      → Sized max (run encode lookup max exit_first s es)
  unfolding run
  run-Sized max exit_first s [] h = h
  run-Sized max exit_first s (e ∷ es) h =
      run-Sized max exit_first (step encode lookup max exit_first s e) es
        (step-Sized max exit_first s e h)

  pub begin-Sized :
      (max : ℕ) (nodes : List Node) (rs : List JobRequest)
      → Sized max (begin encode lookup nodes rs)
  unfolding begin
  begin-Sized max nodes rs = record { active_is = refl; bounded = omega arith; fits = tt }

  -- Whatever the events of a run, no more jobs run at once than MaxParallel says, or one if it
  -- says less; the counter of the driver is the jobs that run or wait to be received.
  pub run_parallel :
      (max_parallel : ℕ) (exit_first : Bool) (nodes : List Node) (rs : List JobRequest)
      (es : List Event)
      → let s = after encode lookup (at_once encode lookup max_parallel) exit_first nodes rs es in
        (length s.running ≤ max_parallel ⊎ (length s.running ≤ 1))
        × (s.active ≡ length s.running + length s.finished)
  run_parallel max_parallel exit_first nodes rs es =
      let most = at_once encode lookup max_parallel in
      let h =
        run-Sized most exit_first (begin encode lookup nodes rs) es (begin-Sized most nodes rs) in
      (ground (arith, h.bounded, h.active_is), h.active_is)

  count-none : {A : Type 0} (p : A → Bool) (xs : List A) → length xs ≡ 0 → count_if p xs ≡ 0
  count-none p [] h = refl
  count-none p (x ∷ xs) h = absurd (omega arith)

  -- When the loops of a run are over, each request has been recorded as often as it was made, or,
  -- if `stop` was set, is still among the pending ones: no job is lost, none is recorded twice.
  -- Only the receipt of a result under ExitFirst, or of one with the context ended, sets `stop`: a
  -- run without such a receipt has every request recorded, those that never ran included.
  pub run_records :
      (p : JobRequest → Bool) (max : ℕ) (exit_first : Bool) (nodes : List Node)
      (rs : List JobRequest) (es : List Event)
      → (after encode lookup max exit_first nodes rs es).place ≡ over
      → let s = after encode lookup max exit_first nodes rs es in
        (count_if (λ f. p f.0) (concluded encode lookup s)
            + (if s.stop then count_if (λ x. p x.req) s.pending else 0)
          ≡ count_if p rs)
        × ((s.stop ≡ false) ⊎ (any (may_stop exit_first) es ≡ true))
  unfolding concluded
  run_records p max exit_first nodes rs es done =
      let s = run encode lookup max exit_first (begin encode lookup nodes rs) es in
      let h =
        run-Sized max exit_first (begin encode lookup nodes rs) es (begin-Sized max nodes rs) in
      let idle : s.active ≡ 0 = subst (Fits max s.active) done h.fits in
      let all =
        run-tally p max exit_first (begin encode lookup nodes rs) es ∙ begin-tally p nodes rs in
      let no_running = count-none (λ x. p x.req) s.running (omega (arith, h.active_is)) in
      let no_finished = count-none (λ f. p f.0) s.finished (omega (arith, h.active_is)) in
      (
        elim (Bool-cases s.stop) [
          | inl stopped ↦ rw stopped (omega arith)
          | inr on ↦ rw on (
              omega (
                arith,
                count-append (λ (f : JobRequest × JobResult). p f.0) s.recorded
                    (map (λ x. (x.req, fail_result encode lookup x.req)) s.pending),
                count-map (λ (f : JobRequest × JobResult). p f.0)
                    (λ (x : Plan). (x.req, fail_result encode lookup x.req)) s.pending,
              ))
        ],
        run_stop encode lookup max exit_first (begin encode lookup nodes rs) es
            (begin_stop encode lookup nodes rs),
      )

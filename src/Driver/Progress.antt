-- ===== src/Driver/Progress.antt =====
-- driver.go: a measure on the state of a run that every event lowers, if it does anything.
use torx.Base.{
  ℕ, zero, suc, ◌+◌, ◌-◌, ◌≤◌, ◌<◌, ◌≡◌, ◌≢◌, ◌⊎◌, inl, inr, refl, sym, subst, ◌∙◌, String, List,
  [], ◌∷◌, ◌++◌, Option, none, Bool, true, false, not, ◌&&◌, length, length-append, length-remove,
  get_elem?, get_elem?-lt, get_elem?_of_lt, remove, ◌==◌, ltb, arith, Bool-cases, Option-cases,
}
use torx.Node.{Node}
use torx.Spec.{PoolSpec}
use torx.Pool.{Allocated, ok, err, allocate, can_allocate}
use torx.Params.{Json}
use torx.Discovery.{JobRequest}
use torx.Suite.{JobResult}
use torx.Driver.{
  Plan, Running, State, Place, Event, drive, finish, receive, outer, top, waiting, over, scanning,
  allocating, begin, launch, go_on, end_job, launched, take_result, at_receive, step, run, after,
  leave,
}
use torx.Driver.Counts.{Sized, Fits, run-Sized, begin-Sized}

-- `n` times `c`.
abbrev times : ℕ → ℕ → ℕ
times c zero = 0
times c (suc n) = c + times c n

-- What is left to do at a place, with `n` plans at most.
abbrev spot : ℕ → Place → ℕ
spot n outer = n + 5
spot n top = n + 4
spot n (scanning k) = n + 2 - k
spot n (allocating k) = 1
spot n waiting = 0
spot n over = 0

abbrev pub work : ℕ → State → ℕ
work n s =
    times (n + n + 12) (length s.pending)
    + times (n + 7) (length s.running)
    + times (n + 6) (length s.finished)
    + spot n s.place

abbrev Within : ℕ → ℕ → Place → Type 0
Within n pending outer = pending ≤ n
Within n pending top = pending ≤ n
Within n pending waiting = pending ≤ n
Within n pending over = pending ≤ n
Within n pending (scanning k) = (pending ≤ n) × (k ≤ pending)
Within n pending (allocating k) = (pending ≤ n) × (k < pending)

module _ (encode : Json → String) (lookup : String → Option (JobRequest → Option PoolSpec)) where
  abbrev Lowers : ℕ → State → State → Type 0
  Lowers n s t = (t ≡ s) ⊎ (work n t < work n s)

  abbrev Ranged : ℕ → State → Type 0
  Ranged n s = Within n (length s.pending) s.place

  Within-le : (n pending : ℕ) (at : Place) → Within n pending at → pending ≤ n
  Within-le n pending outer h = h
  Within-le n pending top h = h
  Within-le n pending waiting h = h
  Within-le n pending over h = h
  Within-le n pending (scanning k) h = h.0
  Within-le n pending (allocating k) h = h.0

  times-suc : (c n m : ℕ) → suc n ≡ m → times c m ≡ c + times c n
  times-suc c n m e = rw (sym e) refl

  launch_lowers :
      (n k : ℕ) (p : Plan) (s : State) (a : Allocated)
      → s.place ≡ allocating k
      → k < length s.pending
      → length s.pending ≤ n
      → (work n (launch encode lookup p (record s { pending = remove k s.pending }) a) < work n s)
        × Ranged n (launch encode lookup p (record s { pending = remove k s.pending }) a)
  unfolding launch
  launch_lowers n k p s (ok sub) at lt le =
      let fewer = length-remove s.pending k lt in
      let more =
        length-append s.running (record { req = p.req; handle = length s.sys.subs } ∷ []) in
      (
        rw at (
            omega (
              arith,
              times-suc (n + n + 12) (length (remove k s.pending)) (length s.pending) fewer,
              times-suc (n + 7) (length s.running)
                  (length (s.running ++ record { req = p.req; handle = length s.sys.subs } ∷ []))
                  (omega (arith, more)),
            )),
        omega (arith, fewer),
      )
  launch_lowers n k p s (err e) at lt le =
      let fewer = length-remove s.pending k lt in
      (
        rw at (
            omega (
              arith,
              times-suc (n + n + 12) (length (remove k s.pending)) (length s.pending) fewer,
            )),
        omega (arith, fewer),
      )

  leave_lowers :
      (n : ℕ) (s : State) (at : Place)
      → s.place ≡ at
      → 0 < spot n at
      → length s.pending ≤ n
      → (work n (leave encode lookup s) < work n s) × Ranged n (leave encode lookup s)
  leave_lowers n s at e some_left le = elim (Bool-cases (s.active == 0)) [
    | inl t ↦ rw t (rw e (omega arith), le)
    | inr t ↦ rw t (rw e (omega arith), le)
  ]

  -- A step of the driver itself, where it does not wait.
  go_on_lowers :
      (n max : ℕ) (ended : Bool) (s : State) (at : Place)
      → s.place ≡ at
      → at ≢ waiting
      → at ≢ over
      → Ranged n s
      → (work n (go_on encode lookup max ended s at) < work n s)
        × Ranged n (go_on encode lookup max ended s at)
  unfolding go_on
  go_on_lowers n max ended s outer e w o h =
      let le = Within-le n (length s.pending) s.place h in
      elim (Bool-cases (length s.pending == 0 && s.active == 0)) [
        | inl t ↦ rw t (rw e (omega arith), le)
        | inr t ↦ rw t (rw e (omega arith), le)
      ]
  go_on_lowers n max ended s top e w o h =
      let le = Within-le n (length s.pending) s.place h in
      elim (Bool-cases (not s.stop && not ended && ltb s.active max)) [
        | inl t ↦ rw t (rw e (omega arith), (le, omega arith))
        | inr t ↦ rw t (leave_lowers n s top e (omega arith) le)
      ]
  go_on_lowers n max ended s (scanning k) e w o h =
      let (le, in_range) : Within n (length s.pending) (scanning k) =
        subst (Within n (length s.pending)) e h in
      elim (Option-cases (get_elem? s.pending k)) [
        | inl none_left ↦ rw (none_left, go_on) (leave_lowers n s (scanning k) e (omega arith) le)
        | inr (p, at) ↦
            let lt = get_elem?-lt s.pending k at in
            elim (Bool-cases (can_allocate s.sys.pool p.spec)) [
              | inl t ↦ rw (at, t, go_on) (rw e (omega arith), (le, lt))
              | inr t ↦ rw (at, t, go_on) (rw e (omega arith), (le, lt))
            ]
      ]
  go_on_lowers n max ended s (allocating k) e w o h =
      let (le, lt) : Within n (length s.pending) (allocating k) =
        subst (Within n (length s.pending)) e h in
      let (p, at) = get_elem?_of_lt s.pending k lt in
      rw (at, go_on) (launch_lowers n k p s (allocate s.sys.pool p.spec).1 e lt le)
  go_on_lowers n max ended s waiting e w o h = absurd (w refl)
  go_on_lowers n max ended s over e w o h = absurd (o refl)

  waits : (at : Place) → at_receive encode lookup at ≡ true → at ≡ waiting
  waits waiting h = refl
  waits outer h = absurd (cc)
  waits top h = absurd (cc)
  waits over h = absurd (cc)
  waits (scanning k) h = absurd (cc)
  waits (allocating k) h = absurd (cc)

  end_job_lowers :
      (n i : ℕ) (r : Running) (res : JobResult) (s : State)
      → i < length s.running
      → work n (end_job encode lookup i r res s) < work n s
  unfolding end_job
  end_job_lowers n i r res s lt = omega (
    arith,
    times-suc (n + 7) (length (remove i s.running)) (length s.running)
        (length-remove s.running i lt),
    times-suc (n + 6) (length s.finished) (length (s.finished ++ (r.req, res) ∷ []))
        (omega (arith, length-append s.finished ((r.req, res) ∷ []))),
  )

  take_lowers :
      (n i : ℕ) (exit_first ended : Bool) (f : JobRequest × JobResult) (s : State)
      → s.place ≡ waiting
      → i < length s.finished
      → work n (take_result encode lookup exit_first ended i f s) < work n s
  unfolding take_result
  take_lowers n i exit_first ended f s at lt = rw at (
      omega (
        arith,
        times-suc (n + 6) (length (remove i s.finished)) (length s.finished)
            (length-remove s.finished i lt),
      ))

  step-Lowers :
      (n max : ℕ) (exit_first : Bool) (s : State) (e : Event)
      → Ranged n s
      → Lowers n s (step encode lookup max exit_first s e)
        × Ranged n (step encode lookup max exit_first s e)
  unfolding step
  step-Lowers n max exit_first s (drive ended) h = go s.place refl
    where
      go :
          (at : Place)
          → s.place ≡ at
          → Lowers n s (go_on encode lookup max ended s at)
            × Ranged n (go_on encode lookup max ended s at)
      go outer e =
          let (l, r) = go_on_lowers n max ended s outer e (λ q. cc) (λ q. cc) h in (inr l, r)
      go top e = let (l, r) = go_on_lowers n max ended s top e (λ q. cc) (λ q. cc) h in (inr l, r)
      go (scanning k) e =
          let (l, r) = go_on_lowers n max ended s (scanning k) e (λ q. cc) (λ q. cc) h in (inr l, r)
      go (allocating k) e =
          let (l, r) = go_on_lowers n max ended s (allocating k) e (λ q. cc) (λ q. cc) h in
          (inr l, r)
      go waiting e = (inl (rw (e, go_on) refl), h)
      go over e = (inl (rw (e, go_on) refl), h)
  step-Lowers n max exit_first s (finish i answer) h = elim (Option-cases (get_elem? s.running i)) [
    | inl missing ↦ rw (missing, step) (inl refl, h)
    | inr (r, e) ↦
        rw (e, step)
          (
            inr (
                end_job_lowers n i r (launched encode lookup r.req answer) s
                  (get_elem?-lt s.running i e)),
            h,
          )
  ]
  step-Lowers n max exit_first s (receive i ended) h =
      elim (Option-cases (get_elem? s.finished i)) [
        | inl missing ↦ rw (missing, step) (inl refl, h)
        | inr (f, e) ↦ elim (Bool-cases (at_receive encode lookup s.place)) [
          | inr no_receive ↦ rw (e, no_receive, step) (inl refl, h)
          | inl there ↦
              rw (e, there, step)
                (
                  inr (
                      take_lowers n i exit_first ended f s (waits s.place there)
                        (get_elem?-lt s.finished i e)),
                  Within-le n (length s.pending) s.place h,
                )
        ]
      ]

  step-Ranged :
      (n max : ℕ) (exit_first : Bool) (s : State) (e : Event)
      → Ranged n s
      → Ranged n (step encode lookup max exit_first s e)
  step-Ranged n max exit_first s e h = (step-Lowers n max exit_first s e h).1

  run-Ranged :
      (n max : ℕ) (exit_first : Bool) (s : State) (es : List Event)
      → Ranged n s
      → Ranged n (run encode lookup max exit_first s es)
  unfolding run
  run-Ranged n max exit_first s [] h = h
  run-Ranged n max exit_first s (e ∷ es) h =
      run-Ranged n max exit_first (step encode lookup max exit_first s e) es
        (step-Ranged n max exit_first s e h)

  -- Until the loops are over, something can happen that lowers the work.
  some_event :
      (n max : ℕ) (exit_first : Bool) (s : State)
      → Sized encode lookup max s
      → Ranged n s
      → s.place ≢ over
      → (e : Event) × (work n (step encode lookup max exit_first s e) < work n s)
  unfolding step
  some_event n max exit_first s z h not_over = go s.place refl
    where
      drives :
          (at : Place)
          → s.place ≡ at
          → at ≢ waiting
          → at ≢ over
          → (e : Event) × (work n (step encode lookup max exit_first s e) < work n s)
      drives at e w o = (
        drive false,
        subst (λ a. work n (go_on encode lookup max false s a) < work n s) (sym e)
            (go_on_lowers n max false s at e w o h).0,
      )

      waits_for :
          s.place ≡ waiting
          → (e : Event) × (work n (step encode lookup max exit_first s e) < work n s)
      waits_for e =
          let some_active : 0 < s.active = subst (Fits encode lookup max s.active) e z.fits in
          elim (Bool-cases (ltb 0 (length s.running))) [
            | inl running ↦
                let (r, at) = get_elem?_of_lt s.running 0 (ground arith) in
                (
                  finish 0 none,
                  rw (at, step)
                      (end_job_lowers n 0 r (launched encode lookup r.req none) s (ground arith)),
                )
            | inr none_running ↦
                let (f, at) = get_elem?_of_lt s.finished 0 (ground (arith, z.active_is)) in
                let there : at_receive encode lookup s.place ≡ true =
                  subst (λ a. at_receive encode lookup a ≡ true) (sym e) refl in
                (
                  receive 0 false,
                  rw (at, there, step)
                      (take_lowers n 0 exit_first false f s e (ground (arith, z.active_is))),
                )
          ]

      go :
          (at : Place)
          → s.place ≡ at
          → (e : Event) × (work n (step encode lookup max exit_first s e) < work n s)
      go outer e = drives outer e (λ q. cc) (λ q. cc)
      go top e = drives top e (λ q. cc) (λ q. cc)
      go (scanning k) e = drives (scanning k) e (λ q. cc) (λ q. cc)
      go (allocating k) e = drives (allocating k) e (λ q. cc) (λ q. cc)
      go waiting e = waits_for e
      go over e = absurd (not_over e)

  ends_by :
      (fuel n max : ℕ) (exit_first : Bool) (s : State)
      → Sized encode lookup max s
      → Ranged n s
      → work n s < fuel
      → (fs : List Event) × ((run encode lookup max exit_first s fs).place ≡ over)
  unfolding run
  ends_by zero n max exit_first s z h f = absurd (omega arith)
  ends_by (suc fuel) n max exit_first s z h f =
      go s.place refl (λ e. ends_by fuel n max exit_first (step encode lookup max exit_first s e))
    where
      on :
          s.place ≢ over
          → ((e : Event)
              → Sized encode lookup max (step encode lookup max exit_first s e)
              → Ranged n (step encode lookup max exit_first s e)
              → work n (step encode lookup max exit_first s e) < fuel
              → (fs : List Event) × ((run encode lookup max exit_first
                    (step encode lookup max exit_first s e)
                    fs).place
                  ≡ over))
          → (fs : List Event) × ((run encode lookup max exit_first s fs).place ≡ over)
      on more later =
          let (e, lower) = some_event n max exit_first s z h more in
          let (fs, ended) =
            later e (run-Sized encode lookup max exit_first s (e ∷ []) z)
              (step-Ranged n max exit_first s e h) (omega arith) in
          (e ∷ fs, ended)

      go :
          (at : Place)
          → s.place ≡ at
          → ((e : Event)
              → Sized encode lookup max (step encode lookup max exit_first s e)
              → Ranged n (step encode lookup max exit_first s e)
              → work n (step encode lookup max exit_first s e) < fuel
              → (fs : List Event) × ((run encode lookup max exit_first
                    (step encode lookup max exit_first s e)
                    fs).place
                  ≡ over))
          → (fs : List Event) × ((run encode lookup max exit_first s fs).place ≡ over)
      go over e later = ([], e)
      go outer e later = on (λ q. absurd (let r = sym e ∙ q in cc)) later
      go top e later = on (λ q. absurd (let r = sym e ∙ q in cc)) later
      go waiting e later = on (λ q. absurd (let r = sym e ∙ q in cc)) later
      go (scanning k) e later = on (λ q. absurd (let r = sym e ∙ q in cc)) later
      go (allocating k) e later = on (λ q. absurd (let r = sym e ∙ q in cc)) later

  abbrev pub plans : List Node → List JobRequest → ℕ
  plans nodes rs = length (begin encode lookup nodes rs).pending

  begin-Ranged :
      (nodes : List Node) (rs : List JobRequest)
      → Ranged (plans nodes rs) (begin encode lookup nodes rs)
  unfolding begin
  begin-Ranged nodes rs = omega arith

  -- A run neither loops nor gets stuck: each event lowers `work` or does nothing, and from every
  -- state that a run comes to, some events bring the driver behind its loops.
  pub run_ends :
      (max : ℕ) (exit_first : Bool) (nodes : List Node) (rs : List JobRequest) (es : List Event)
      → let s = after encode lookup max exit_first nodes rs es in
        ((e : Event)
          → (step encode lookup max exit_first s e ≡ s)
            ⊎ (work (plans nodes rs) (step encode lookup max exit_first s e)
                < work (plans nodes rs) s))
        × ((fs : List Event) × ((run encode lookup max exit_first s fs).place ≡ over))
  run_ends max exit_first nodes rs es =
      let s = after encode lookup max exit_first nodes rs es in
      let z =
        run-Sized encode lookup max exit_first (begin encode lookup nodes rs) es
          (begin-Sized encode lookup max nodes rs) in
      let n = plans nodes rs in
      let h =
        run-Ranged n max exit_first (begin encode lookup nodes rs) es (begin-Ranged nodes rs) in
      (
        (λ e. (step-Lowers n max exit_first s e h).0),
        ends_by (suc (work n s)) n max exit_first s z h (omega arith),
      )

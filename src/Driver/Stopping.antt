-- ===== src/Driver/Stopping.antt =====
-- driver.go: what sets `stop`, which ends the scheduling of a run.
use torx.Base.{
  ℕ, ◌≡◌, ◌⊎◌, inl, inr, refl, ◌∙◌, String, List, [], ◌∷◌, Option, Bool, true, false, any, ◌||◌,
  get_elem?, remove, arith, Bool-cases, Option-cases,
}
use torx.Node.{Node}
use torx.Spec.{PoolSpec}
use torx.Pool.{Allocated, ok, err, allocate}
use torx.Params.{Json}
use torx.Discovery.{JobRequest}
use torx.Driver.{
  Plan, State, Place, Event, drive, finish, receive, outer, top, waiting, over, scanning,
  allocating, begin, launch, go_on, end_job, take_result, at_receive, step, run,
}

-- A receipt that may end the scheduling.
abbrev pub may_stop : Bool → Event → Bool
may_stop exit_first (drive ended) = false
may_stop exit_first (finish i answer) = false
may_stop exit_first (receive i ended) = exit_first || ended

module _ (encode : Json → String) (lookup : String → Option (JobRequest → Option PoolSpec)) where
  launch_stop : (p : Plan) (s : State) (a : Allocated) → (launch encode lookup p s a).stop ≡ s.stop
  unfolding launch
  launch_stop p s (ok sub) = refl
  launch_stop p s (err e) = refl

  go_on_stop :
      (max : ℕ) (ended : Bool) (s : State) (at : Place)
      → (go_on encode lookup max ended s at).stop ≡ s.stop
  unfolding go_on
  go_on_stop max ended s outer = refl
  go_on_stop max ended s top = ground arith
  go_on_stop max ended s (scanning k) = elim (Option-cases (get_elem? s.pending k)) [
    | inl n ↦ rw (n, go_on) (ground arith)
    | inr (p, at) ↦ rw (at, go_on) refl
  ]
  go_on_stop max ended s (allocating k) = elim (Option-cases (get_elem? s.pending k)) [
    | inl n ↦ rw (n, go_on) refl
    | inr (p, at) ↦
        rw (at, go_on)
          (launch_stop p (record s { pending = remove k s.pending }) (allocate s.sys.pool p.spec).1)
  ]
  go_on_stop max ended s waiting = refl
  go_on_stop max ended s over = refl

  step_stop :
      (max : ℕ) (exit_first : Bool) (s : State) (e : Event)
      → may_stop exit_first e ≡ false
      → (step encode lookup max exit_first s e).stop ≡ s.stop
  unfolding step end_job take_result
  step_stop max exit_first s (drive ended) h = go_on_stop max ended s s.place
  step_stop max exit_first s (finish i answer) h = elim (Option-cases (get_elem? s.running i)) [
    | inl n ↦ rw (n, step) refl
    | inr (r, e) ↦ rw (e, step) refl
  ]
  step_stop max exit_first s (receive i ended) h = elim (Option-cases (get_elem? s.finished i)) [
    | inl n ↦ rw (n, step) refl
    | inr (f, e) ↦ elim (Bool-cases (at_receive encode lookup s.place)) [
      | inr no_receive ↦ rw (e, no_receive, step) refl
      | inl there ↦ rw (e, there, step) (ground arith)
    ]
  ]

  pub begin_stop :
      (nodes : List Node) (rs : List JobRequest) → (begin encode lookup nodes rs).stop ≡ false
  unfolding begin
  begin_stop nodes rs = refl

  pub run_stop :
      (max : ℕ) (exit_first : Bool) (s : State) (es : List Event)
      → s.stop ≡ false
      → ((run encode lookup max exit_first s es).stop ≡ false)
        ⊎ (any (may_stop exit_first) es ≡ true)
  unfolding run
  run_stop max exit_first s [] h = inl h
  run_stop max exit_first s (e ∷ es) h = elim (Bool-cases (may_stop exit_first e)) [
    | inl may ↦ rw may (inr refl)
    | inr quiet ↦ rw quiet (
        run_stop max exit_first (step encode lookup max exit_first s e) es
          (step_stop max exit_first s e quiet ∙ h))
  ]

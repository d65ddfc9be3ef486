-- ===== src/Driver/Granted.antt =====
-- driver.go: between CanAllocate and Allocate jobs may end, which only gives nodes back.
use torx.Base.{
  ℕ, zero, suc, ◌≡◌, inl, inr, refl, sym, subst, ◌∙◌, String, List, [], ◌∷◌, ◌++◌, append-nil,
  Option, some, Bool, true, false, not, ◌&&◌, length, get_elem?, remove, if◌then◌else◌, ◌==◌, ltb,
  Bool-cases, Option-cases,
}
use torx.Node.{Node}
use torx.Spec.{NodeSpec, PoolSpec}
use torx.Pool.{Pool, SubPool, Allocated, ok, err, allocate, free, evict, can_allocate}
use torx.Pool.Match.{match_specs}
use torx.Pool.Match.Hall.{Assignment}
use torx.Pool.Match.Correct.{match_specs_sound, match_specs_complete}
use torx.Pool.Sessions as Sessions
use torx.Pool.Sessions.{System, Op}
use torx.Pool.Guarantees.{allocate_all_or_nothing}
use torx.Params.{Json}
use torx.Discovery.{JobRequest}
use torx.Suite.{JobResult}
use torx.Driver.{
  Plan, Running, State, Place, Event, drive, finish, receive, outer, top, waiting, over, scanning,
  allocating, begin, launch, go_on, end_job, launched, take_result, at_receive, step, run, after,
  leave,
}

get_elem?-append :
    (xs ys : List Node) (i : ℕ) (x : Node)
    → get_elem? xs i ≡ some x
    → get_elem? (xs ++ ys) i ≡ some x
get_elem?-append [] ys i x e = cc
get_elem?-append (y ∷ xs) ys zero x e = e
get_elem?-append (y ∷ xs) ys (suc i) x e = get_elem?-append xs ys i x e

-- An assignment to the candidates is one to more candidates.
widened :
    (specs : List NodeSpec) (candidates more : List Node)
    → Assignment specs candidates
    → Assignment specs (candidates ++ more)
widened specs candidates more a = record {
  place = a.place;
  place_fits = λ i h.
      let (node, at, fits) = a.place_fits i h in
      (node, get_elem?-append candidates more (a.place i) node at, fits);
  distinct = a.distinct;
}

can_allocate_more :
    (p q : Pool) (spec : PoolSpec) (more : List Node)
    → q.free_nodes ≡ p.free_nodes ++ more
    → can_allocate p spec ≡ true
    → can_allocate q spec ≡ true
unfolding can_allocate
can_allocate_more p q spec more e h = elim (Option-cases (match_specs p.free_nodes spec.nodes)) [
  | inl n ↦ absurd (let h' = rw (n, can_allocate) at h in cc)
  | inr (ns, m) ↦
      let (_, found) = match_specs_sound spec.nodes p.free_nodes ns m in
      let (ms, m') =
        match_specs_complete spec.nodes (p.free_nodes ++ more)
          (widened spec.nodes p.free_nodes more found.0) in
      rw (e, can_allocate) (rw m' refl)
]

-- What Free and Evict do to the free nodes.
given_more :
    (s : System) (h : ℕ) (dirty : Bool)
    → (more : List Node) × ((Sessions.step s
          (if dirty then Sessions.evicts h else Sessions.frees h)).pool.free_nodes
        ≡ s.pool.free_nodes ++ more)
unfolding Sessions.step free evict
given_more s h true = elim (Option-cases (get_elem? s.subs h)) [
  | inl n ↦ ([], rw (n, Sessions.step) (sym (append-nil s.pool.free_nodes)))
  | inr (sub, e) ↦ elim (Bool-cases sub.freed) [
    | inl f ↦ ([], rw (e, Sessions.step) (rw (f, evict) (sym (append-nil s.pool.free_nodes))))
    | inr f ↦ ([], rw (e, Sessions.step) (rw (f, evict) (sym (append-nil s.pool.free_nodes))))
  ]
]
given_more s h false = elim (Option-cases (get_elem? s.subs h)) [
  | inl n ↦ ([], rw (n, Sessions.step) (sym (append-nil s.pool.free_nodes)))
  | inr (sub, e) ↦ elim (Bool-cases sub.freed) [
    | inl f ↦ ([], rw (e, Sessions.step) (rw (f, free) (sym (append-nil s.pool.free_nodes))))
    | inr f ↦ (sub.nodes, rw (e, Sessions.step) (rw (f, free) refl))
  ]
]

-- CanAllocate has said yes to the plan that the driver is about to allocate for.
abbrev Ready : State → Place → Type 0
Ready s (allocating k) =
    (p : Plan) × (get_elem? s.pending k ≡ some p) × (can_allocate s.sys.pool p.spec ≡ true)
Ready s _ = Unit

module _ (encode : Json → String) (lookup : String → Option (JobRequest → Option PoolSpec)) where
  leave-Ready : (s : State) → let t = leave encode lookup s in Ready t t.place
  leave-Ready s = elim (Bool-cases (s.active == 0)) [ inl e ↦ rw e tt | inr e ↦ rw e tt ]

  launch-Ready :
      (p : Plan) (s : State) (a : Allocated) → let t = launch encode lookup p s a in Ready t t.place
  unfolding launch
  launch-Ready p s (ok sub) = tt
  launch-Ready p s (err e) = tt

  go_on-Ready :
      (max : ℕ) (ended : Bool) (s : State) (at : Place)
      → s.place ≡ at
      → Ready s s.place
      → let t = go_on encode lookup max ended s at in Ready t t.place
  unfolding go_on
  go_on-Ready max ended s outer e h = elim (Bool-cases (length s.pending == 0 && s.active == 0)) [
    | inl t ↦ rw t tt
    | inr t ↦ rw t tt
  ]
  go_on-Ready max ended s top e h =
      elim (Bool-cases (not s.stop && not ended && ltb s.active max)) [
        | inl t ↦ rw t tt
        | inr t ↦ rw t (leave-Ready s)
      ]
  go_on-Ready max ended s (scanning k) e h = elim (Option-cases (get_elem? s.pending k)) [
    | inl n ↦ rw (n, go_on) (leave-Ready s)
    | inr (p, at) ↦ elim (Bool-cases (can_allocate s.sys.pool p.spec)) [
      | inl t ↦ rw (at, t, go_on) (p, at, t)
      | inr t ↦ rw (at, t, go_on) tt
    ]
  ]
  go_on-Ready max ended s (allocating k) e h = elim (Option-cases (get_elem? s.pending k)) [
    | inl n ↦ rw (n, go_on) h
    | inr (p, at) ↦
        rw (at, go_on)
          (launch-Ready p (record s { pending = remove k s.pending })
            (allocate s.sys.pool p.spec).1)
  ]
  go_on-Ready max ended s waiting e h = h
  go_on-Ready max ended s over e h = h

  end_job-Ready :
      (i : ℕ) (r : Running) (res : JobResult) (s : State) (at : Place)
      → Ready s at
      → Ready (end_job encode lookup i r res s) at
  unfolding end_job
  end_job-Ready i r res s (allocating k) (p, at, can) =
      let (more, e) = given_more s.sys r.handle res.dirty in
      (p, at, can_allocate_more s.sys.pool _ p.spec more e can)
  end_job-Ready i r res s outer h = tt
  end_job-Ready i r res s top h = tt
  end_job-Ready i r res s waiting h = tt
  end_job-Ready i r res s over h = tt
  end_job-Ready i r res s (scanning k) h = tt

  step-Ready :
      (max : ℕ) (exit_first : Bool) (s : State) (e : Event)
      → Ready s s.place
      → let t = step encode lookup max exit_first s e in Ready t t.place
  unfolding step take_result
  step-Ready max exit_first s (drive ended) h = go_on-Ready max ended s s.place refl h
  step-Ready max exit_first s (finish i answer) h = elim (Option-cases (get_elem? s.running i)) [
    | inl n ↦ rw (n, step) h
    | inr (r, e) ↦
        rw (e, step) (end_job-Ready i r (launched encode lookup r.req answer) s s.place h)
  ]
  step-Ready max exit_first s (receive i ended) h = elim (Option-cases (get_elem? s.finished i)) [
    | inl n ↦ rw (n, step) h
    | inr (f, e) ↦ elim (Bool-cases (at_receive encode lookup s.place)) [
      | inr no_receive ↦ rw (e, no_receive, step) h
      | inl there ↦ rw (e, there, step) tt
    ]
  ]

  run-Ready :
      (max : ℕ) (exit_first : Bool) (s : State) (es : List Event)
      → Ready s s.place
      → let t = run encode lookup max exit_first s es in Ready t t.place
  unfolding run
  run-Ready max exit_first s [] h = h
  run-Ready max exit_first s (e ∷ es) h =
      run-Ready max exit_first (step encode lookup max exit_first s e) es
        (step-Ready max exit_first s e h)

  begin-Ready :
      (nodes : List Node) (rs : List JobRequest)
      → let t = begin encode lookup nodes rs in Ready t t.place
  unfolding begin
  begin-Ready nodes rs = tt

  -- Where the driver is about to allocate for a plan, the plan is there and Allocate grants it,
  -- although jobs may have ended since CanAllocate said so: the failure behind it never happens.
  pub run_grants :
      (max : ℕ) (exit_first : Bool) (nodes : List Node) (rs : List JobRequest) (es : List Event)
      (k : ℕ)
      → (after encode lookup max exit_first nodes rs es).place ≡ allocating k
      → let s = after encode lookup max exit_first nodes rs es in
        (p : Plan) × (get_elem? s.pending k ≡ some p)
        × ((q : Pool) × (sub : SubPool) × (allocate s.sys.pool p.spec ≡ (q, ok sub)))
  run_grants max exit_first nodes rs es k e =
      let s = after encode lookup max exit_first nodes rs es in
      let (p, at, can) : Ready s (allocating k) =
        subst (Ready s) e
          (run-Ready max exit_first (begin encode lookup nodes rs) es (begin-Ready nodes rs)) in
      (
        p,
        at,
        elim (allocate_all_or_nothing s.sys.pool p.spec) [
          | inl (q, sub, granted, _, _) ↦ (q, sub, granted)
          | inr (_, _, _, _, cannot) ↦ absurd (let c = sym can ∙ cannot in cc)
        ],
      )

-- ===== src/Driver/Nodes.antt =====
-- driver.go: the nodes of the jobs that run. A run drives its pool by Allocate, Free and Evict, so
-- what a pool promises over such calls holds in a run.
use torx.Base.{
  ℕ, ◌≤◌, ◌≡◌, ◌≢◌, ◌⊎◌, inl, inr, refl, sym, ap, subst, ◌∙◌, String, List, [], ◌∷◌, ◌++◌, Option,
  none, some, Bool, true, false, not, ◌&&◌, length, get_elem?, get_elem?-lt, set, remove, All,
  All-append, All-get, if◌then◌else◌, ◌==◌, ltb, arith, Bool-cases, Option-cases,
}
use torx.Base.Sort.{count_if, count-remove}
use torx.Errors.{Error}
use torx.Node.{Node}
use torx.Spec.{PoolSpec}
use torx.Pool.{SubPool, ok, err, allocate, free, evict}
use torx.Pool.Count.{cnt, holding}
use torx.Pool.Sessions as Sessions
use torx.Pool.Sessions.{System, Op}
use torx.Pool.Guarantees.{run-exclusive, run_apart, allocate_all_or_nothing}
use torx.Params.{Json}
use torx.Discovery.{JobRequest}
use torx.Suite.{JobResult}
use torx.Driver.{
  Plan, Running, State, Place, Event, drive, finish, receive, outer, top, waiting, over, scanning,
  allocating, begin, launch, go_on, end_job, launched, take_result, at_receive, step, run, after,
}
use torx.Driver.Handles.{
  LiveAt, LiveAt-append, LiveAt-last, LiveAt-set, All-mono, All-remove, All-counted, count-two,
  count-only, apart_snoc,
}

run-snoc :
    (s : System) (os : List Op) (o : Op)
    → Sessions.run s (os ++ o ∷ []) ≡ Sessions.step (Sessions.run s os) o
unfolding Sessions.run
run-snoc s [] o = refl
run-snoc s (p ∷ os) o = run-snoc (Sessions.step s p) os o

-- What Allocate does to the sub-pools handed out.
step_allocates :
    (s : System) (spec : PoolSpec)
    → ((sub : SubPool) × ((allocate s.pool spec).1 ≡ ok sub)
        × (sub.freed ≡ false)
        × ((Sessions.step s (Sessions.allocates spec)).subs ≡ s.subs ++ sub ∷ []))
      ⊎ ((e : Error) × ((allocate s.pool spec).1 ≡ err e)
          × ((Sessions.step s (Sessions.allocates spec)).subs ≡ s.subs))
unfolding Sessions.step
step_allocates s spec = elim (allocate_all_or_nothing s.pool spec) [
  | inl (p, sub, e, granted, _) ↦ inl (sub, ap (λ x. x.1) e, granted.0, rw (e, Sessions.step) refl)
  | inr (x, e, _, _, _) ↦ inr (x, ap (λ y. y.1) e, rw (e, Sessions.step) refl)
]

abbrev GivenBack : System → ℕ → Op → Type 0
GivenBack s h o = (sub : SubPool) × ((Sessions.step s o).subs ≡ set s.subs h sub)

given_back :
    (s : System) (h : ℕ) (sub : SubPool) (dirty : Bool)
    → get_elem? s.subs h ≡ some sub
    → sub.freed ≡ false
    → GivenBack s h (if dirty then Sessions.evicts h else Sessions.frees h)
unfolding Sessions.step
given_back s h sub true at f = ((evict s.pool sub).1, rw (at, Sessions.step) refl)
given_back s h sub false at f = ((free s.pool sub).1, rw (at, Sessions.step) refl)

module _ (nodes : List Node) where
  -- The pool of a run, and the sub-pools of its jobs.
  pub record Owns (s : State) : Type 0 where
    pub ops : List Op
    pub driven : s.sys ≡ Sessions.run (Sessions.start nodes) ops
    pub live : All (λ r. LiveAt s.sys.subs r.handle) s.running
    pub apart : (k : ℕ) → count_if (λ r. r.handle == k) s.running ≤ 1

  after_op :
      (s : State) (h : Owns s) (o : Op)
      → Sessions.step s.sys o ≡ Sessions.run (Sessions.start nodes) (h.ops ++ o ∷ [])
  after_op s h o =
      ap (λ y. Sessions.step y o) h.driven ∙ sym (run-snoc (Sessions.start nodes) h.ops o)

  module _ (encode : Json → String) (lookup : String → Option (JobRequest → Option PoolSpec)) where
    pub begin-Owns : (rs : List JobRequest) → Owns (begin encode lookup nodes rs)
    unfolding begin Sessions.run
    begin-Owns rs = record { ops = []; driven = refl; live = tt; apart = λ k. omega arith }

    launch-Owns :
        (p : Plan) (s : State)
        → Owns s
        → Owns (launch encode lookup p s (allocate s.sys.pool p.spec).1)
    unfolding launch
    launch-Owns p s h = elim (step_allocates s.sys p.spec) [
      | inl (sub, e, f, subs) ↦
          rw (e, launch)
            (record {
              ops = h.ops ++ Sessions.allocates p.spec ∷ [];
              driven = after_op s h (Sessions.allocates p.spec);
              live =
                  subst
                    (λ l.
                      All (λ r. LiveAt l r.handle)
                        (s.running ++ record { req = p.req; handle = length s.sys.subs } ∷ []))
                    (sym subs)
                    (All-append (λ (r : Running). LiveAt (s.sys.subs ++ sub ∷ []) r.handle)
                      s.running _
                      (All-mono _ _ s.running
                        (λ r l. LiveAt-append s.sys.subs (sub ∷ []) r.handle l) h.live)
                      (LiveAt-last s.sys.subs sub f, tt));
              apart = λ k.
                  apart_snoc s.running p.req (length s.sys.subs) k
                    (All-mono _ _ s.running (λ r l. get_elem?-lt s.sys.subs r.handle l.1) h.live)
                    (h.apart k);
            })
      | inr (x, e, subs) ↦
          rw (e, launch)
            (record {
              ops = h.ops ++ Sessions.allocates p.spec ∷ [];
              driven = after_op s h (Sessions.allocates p.spec);
              live = rw subs h.live;
              apart = h.apart;
            })
    ]

    go_on-Owns :
        (max : ℕ) (ended : Bool) (s : State) (at : Place)
        → Owns s
        → Owns (go_on encode lookup max ended s at)
    unfolding go_on
    go_on-Owns max ended s outer h = record {
      ops = h.ops;
      driven = h.driven;
      live = h.live;
      apart = h.apart;
    }
    go_on-Owns max ended s top h = elim (Bool-cases (not s.stop && not ended && ltb s.active max)) [
      | inl t ↦ rw t (record { ops = h.ops; driven = h.driven; live = h.live; apart = h.apart })
      | inr t ↦ rw t (record { ops = h.ops; driven = h.driven; live = h.live; apart = h.apart })
    ]
    go_on-Owns max ended s (scanning k) h = elim (Option-cases (get_elem? s.pending k)) [
      | inl n ↦
          rw (n, go_on) (record { ops = h.ops; driven = h.driven; live = h.live; apart = h.apart })
      | inr (p, at) ↦
          rw (at, go_on) (record { ops = h.ops; driven = h.driven; live = h.live; apart = h.apart })
    ]
    go_on-Owns max ended s (allocating k) h = elim (Option-cases (get_elem? s.pending k)) [
      | inl n ↦ rw (n, go_on) h
      | inr (p, at) ↦
          rw (at, go_on)
            (launch-Owns p (record s { pending = remove k s.pending })
              (record { ops = h.ops; driven = h.driven; live = h.live; apart = h.apart }))
    ]
    go_on-Owns max ended s waiting h = h
    go_on-Owns max ended s over h = h

    end_job-Owns :
        (i : ℕ) (r : Running) (res : JobResult) (s : State)
        → get_elem? s.running i ≡ some r
        → Owns s
        → Owns (end_job encode lookup i r res s)
    unfolding end_job
    end_job-Owns i r res s e h =
        let (sub, at, f) = All-get (λ r. LiveAt s.sys.subs r.handle) s.running i h.live e in
        let (subs, marked) : GivenBack s.sys r.handle
            (if res.dirty then Sessions.evicts r.handle else Sessions.frees r.handle) =
          given_back s.sys r.handle sub res.dirty at f in
        let counts = λ (k : ℕ). count-remove (λ (q : Running). q.handle == k) s.running i r e in
        let others : count_if (λ q. q.handle == r.handle) (remove i s.running) ≡ 0 =
          ground (arith, counts r.handle, h.apart r.handle) in
        record {
          ops = h.ops ++ _ ∷ [];
          driven = after_op s h _;
          live =
              subst (λ l. All (λ q. LiveAt l q.handle) (remove i s.running)) (sym marked)
                (All-mono _ _ (remove i s.running)
                  (λ q (l, other). LiveAt-set s.sys.subs r.handle q.handle subs other l)
                  (All-counted (λ q. LiveAt s.sys.subs q.handle) (λ q. q.handle == r.handle)
                    (remove i s.running) others (All-remove _ s.running i h.live)));
          apart = λ k. omega (arith, counts k, h.apart k);
        }

    pub step-Owns :
        (max : ℕ) (exit_first : Bool) (s : State) (e : Event)
        → Owns s
        → Owns (step encode lookup max exit_first s e)
    unfolding step take_result
    step-Owns max exit_first s (drive ended) h = go_on-Owns max ended s s.place h
    step-Owns max exit_first s (finish i answer) h = elim (Option-cases (get_elem? s.running i)) [
      | inl n ↦ rw (n, step) h
      | inr (r, e) ↦ rw (e, step) (end_job-Owns i r (launched encode lookup r.req answer) s e h)
    ]
    step-Owns max exit_first s (receive i ended) h = elim (Option-cases (get_elem? s.finished i)) [
      | inl n ↦ rw (n, step) h
      | inr (f, e) ↦ elim (Bool-cases (at_receive encode lookup s.place)) [
        | inr no_receive ↦ rw (e, no_receive, step) h
        | inl there ↦
            rw (e, there, step)
              (record { ops = h.ops; driven = h.driven; live = h.live; apart = h.apart })
      ]
    ]

    pub run-Owns :
        (max : ℕ) (exit_first : Bool) (s : State) (es : List Event)
        → Owns s
        → Owns (run encode lookup max exit_first s es)
    unfolding run
    run-Owns max exit_first s [] h = h
    run-Owns max exit_first s (e ∷ es) h =
        run-Owns max exit_first (step encode lookup max exit_first s e) es
          (step-Owns max exit_first s e h)

    abbrev pub nodes_of : State → Running → List Node
    nodes_of s r = elim (get_elem? s.sys.subs r.handle) [ none ↦ [] | some sub ↦ sub.nodes ]

    -- Two jobs that run have two sub-pools.
    different :
        (s : State) (i j : ℕ) (r q : Running)
        → Owns s
        → i ≢ j
        → get_elem? s.running i ≡ some r
        → get_elem? s.running j ≡ some q
        → r.handle ≢ q.handle
    different s i j r q h d e f same =
        let two =
          count-two (λ (x : Running). x.handle == q.handle) s.running i j r q d e f (ground arith)
            (ground arith) in
        absurd (omega (arith, two, h.apart q.handle))

    -- A job that runs has a node that another one has not.
    apart_of :
        (s : State) (i j k : ℕ) (r q : Running)
        → ((n : ℕ) → cnt n nodes ≤ 1)
        → Owns s
        → i ≢ j
        → get_elem? s.running i ≡ some r
        → get_elem? s.running j ≡ some q
        → holding (nodes_of s r) k ≡ true
        → holding (nodes_of s q) k ≡ false
    apart_of s i j k r q distinct h d e f held =
        let (a, at, live) = All-get (λ x. LiveAt s.sys.subs x.handle) s.running i h.live e in
        let (b, bt, live') = All-get (λ x. LiveAt s.sys.subs x.handle) s.running j h.live f in
        rw (bt, nodes_of)
          (run_apart nodes distinct h.ops r.handle q.handle k a b (different s i j r q h d e f)
            (subst (λ y. get_elem? y.subs r.handle ≡ some a) h.driven at) live
            (subst (λ y. get_elem? y.subs q.handle ≡ some b) h.driven bt) live'
            (rw (at, nodes_of) at held))

    -- In a run over distinct nodes, whatever its events, a node of a job that runs is not free and
    -- has not been quarantined, and exactly one of the jobs that run has it.
    pub run_exclusive :
        (distinct : (k : ℕ) → cnt k nodes ≤ 1) (max : ℕ) (exit_first : Bool) (rs : List JobRequest)
        (es : List Event) (i k : ℕ) (r : Running)
        → get_elem? (after encode lookup max exit_first nodes rs es).running i ≡ some r
        → holding (nodes_of (after encode lookup max exit_first nodes rs es) r) k ≡ true
        → let s = after encode lookup max exit_first nodes rs es in
          (holding s.sys.pool.free_nodes k ≡ false)
          × (holding s.sys.gone k ≡ false)
          × (count_if (λ q. holding (nodes_of s q) k) s.running ≡ 1)
    run_exclusive distinct max exit_first rs es i k r e held =
        let s = after encode lookup max exit_first nodes rs es in
        let h = run-Owns max exit_first (begin encode lookup nodes rs) es (begin-Owns rs) in
        let (a, at, live) = All-get (λ x. LiveAt s.sys.subs x.handle) s.running i h.live e in
        let (free, gone, _) =
          run-exclusive nodes distinct h.ops r.handle k a
            (subst (λ y. get_elem? y.subs r.handle ≡ some a) h.driven at) live
            (rw (at, nodes_of) at held) in
        (
          subst (λ y. holding y.pool.free_nodes k ≡ false) (sym h.driven) free,
          subst (λ y. holding y.gone k ≡ false) (sym h.driven) gone,
          count-only (λ q. holding (nodes_of s q) k) s.running i r e held
              (λ j q d f. apart_of s i j k r q distinct h d e f held),
        )

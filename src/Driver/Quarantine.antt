-- ===== src/Driver/Quarantine.antt =====
-- driver.go: the nodes of a job whose result is dirty, from its end on.
use torx.Base.{
  ℕ, zero, suc, ◌≤◌, ◌≡◌, inl, inr, refl, sym, subst, ◌∙◌, String, List, [], ◌∷◌, ◌++◌, Option,
  some, Bool, true, false, not, ◌&&◌, ◌||◌, get_elem?, remove, All-get, ltb, arith, Bool-cases,
  Option-cases,
}
use torx.Base.Sort.{count_if}
use torx.Node.{Node}
use torx.Spec.{PoolSpec}
use torx.Pool.{SubPool, Allocated, ok, err, allocate, free}
use torx.Pool.Count.{cnt, holding}
use torx.Pool.Sessions as Sessions
use torx.Pool.Sessions.{System, Op}
use torx.Pool.Guarantees.{run-evicted, run-accounts, allocate_all_or_nothing}
use torx.Params.{Json}
use torx.Discovery.{JobRequest}
use torx.Suite.{JobResult}
use torx.Driver.{
  Plan, Running, State, Place, Event, drive, finish, receive, outer, top, waiting, over, scanning,
  allocating, begin, launch, go_on, end_job, launched, take_result, at_receive, step, run, after,
}
use torx.Pool.Ops.{live}
use torx.Driver.Handles.{LiveAt, count-none_of}
use torx.Driver.Nodes.{Owns, run-Owns, begin-Owns, nodes_of}

holding-append : (xs ys : List Node) (k : ℕ) → holding (xs ++ ys) k ≡ (holding xs k || holding ys k)
holding-append [] ys k = ground arith
holding-append (x ∷ xs) ys k = ground (arith, holding-append xs ys k)

holding-live :
    (ss : List SubPool) (i k : ℕ) (b : SubPool)
    → get_elem? ss i ≡ some b
    → b.freed ≡ false
    → holding (live ss) k ≡ false
    → holding b.nodes k ≡ false
holding-live [] i k b e f h = cc
holding-live (s ∷ ss) zero k b e f h = ground (arith, holding-append b.nodes (live ss) k)
holding-live (s ∷ ss) (suc i) k b e f h =
    ground (arith, holding-append s.nodes (live ss) k, holding-live ss i k b e f)

-- What is gone from a pool stays gone.
op_gone :
    (s : System) (o : Op) (k : ℕ)
    → holding s.gone k ≡ true
    → holding (Sessions.step s o).gone k ≡ true
unfolding Sessions.step
op_gone s (Sessions.allocates spec) k h = elim (allocate_all_or_nothing s.pool spec) [
  | inl (p, sub, e, _, _) ↦ rw (e, Sessions.step) h
  | inr (x, e, _, _, _) ↦ rw (e, Sessions.step) h
]
op_gone s (Sessions.frees i) k h = elim (Option-cases (get_elem? s.subs i)) [
  | inl n ↦ rw (n, Sessions.step) h
  | inr (sub, e) ↦ rw (e, Sessions.step) h
]
op_gone s (Sessions.evicts i) k h = elim (Option-cases (get_elem? s.subs i)) [
  | inl n ↦ rw (n, Sessions.step) h
  | inr (sub, e) ↦ rw (e, Sessions.step) (ground (arith, holding-append sub.nodes s.gone k))
]

module _ (encode : Json → String) (lookup : String → Option (JobRequest → Option PoolSpec)) where
  launch_gone :
      (p : Plan) (s : State) (a : Allocated) (k : ℕ)
      → holding s.sys.gone k ≡ true
      → holding (launch encode lookup p s a).sys.gone k ≡ true
  unfolding launch
  launch_gone p s (ok sub) k h = op_gone s.sys (Sessions.allocates p.spec) k h
  launch_gone p s (err e) k h = op_gone s.sys (Sessions.allocates p.spec) k h

  go_on_gone :
      (max : ℕ) (ended : Bool) (s : State) (at : Place) (k : ℕ)
      → holding s.sys.gone k ≡ true
      → holding (go_on encode lookup max ended s at).sys.gone k ≡ true
  unfolding go_on
  go_on_gone max ended s outer k h = h
  go_on_gone max ended s top k h = elim (Bool-cases (not s.stop && not ended && ltb s.active max)) [
    | inl t ↦ rw t h
    | inr t ↦ rw t h
  ]
  go_on_gone max ended s (scanning i) k h = elim (Option-cases (get_elem? s.pending i)) [
    | inl n ↦ rw (n, go_on) h
    | inr (p, at) ↦ rw (at, go_on) h
  ]
  go_on_gone max ended s (allocating i) k h = elim (Option-cases (get_elem? s.pending i)) [
    | inl n ↦ rw (n, go_on) h
    | inr (p, at) ↦
        rw (at, go_on)
          (launch_gone p (record s { pending = remove i s.pending }) (allocate s.sys.pool p.spec).1
            k h)
  ]
  go_on_gone max ended s waiting k h = h
  go_on_gone max ended s over k h = h

  step_gone :
      (max : ℕ) (exit_first : Bool) (s : State) (e : Event) (k : ℕ)
      → holding s.sys.gone k ≡ true
      → holding (step encode lookup max exit_first s e).sys.gone k ≡ true
  unfolding step take_result end_job
  step_gone max exit_first s (drive ended) k h = go_on_gone max ended s s.place k h
  step_gone max exit_first s (finish i answer) k h = elim (Option-cases (get_elem? s.running i)) [
    | inl n ↦ rw (n, step) h
    | inr (r, e) ↦ rw (e, step) (op_gone s.sys _ k h)
  ]
  step_gone max exit_first s (receive i ended) k h = elim (Option-cases (get_elem? s.finished i)) [
    | inl n ↦ rw (n, step) h
    | inr (f, e) ↦ elim (Bool-cases (at_receive encode lookup s.place)) [
      | inr no_receive ↦ rw (e, no_receive, step) h
      | inl there ↦ rw (e, there, step) h
    ]
  ]

  run_gone :
      (max : ℕ) (exit_first : Bool) (s : State) (es : List Event) (k : ℕ)
      → holding s.sys.gone k ≡ true
      → holding (run encode lookup max exit_first s es).sys.gone k ≡ true
  unfolding run
  run_gone max exit_first s [] k h = h
  run_gone max exit_first s (e ∷ es) k h =
      run_gone max exit_first (step encode lookup max exit_first s e) es k
        (step_gone max exit_first s e k h)

  run-append :
      (max : ℕ) (exit_first : Bool) (s : State) (es fs : List Event)
      → run encode lookup max exit_first s (es ++ fs)
        ≡ run encode lookup max exit_first (run encode lookup max exit_first s es) fs
  unfolding run
  run-append max exit_first s [] fs = refl
  run-append max exit_first s (e ∷ es) fs =
      run-append max exit_first (step encode lookup max exit_first s e) es fs

  -- The end of a job whose result is dirty puts its nodes with the quarantined ones.
  dirty_gone :
      (nodes : List Node) (max : ℕ) (exit_first : Bool) (s : State) (i k : ℕ) (r : Running)
      (answer : Option JobResult)
      → Owns nodes s
      → get_elem? s.running i ≡ some r
      → (launched encode lookup r.req answer).dirty ≡ true
      → holding (nodes_of nodes encode lookup s r) k ≡ true
      → holding (step encode lookup max exit_first s (finish i answer)).sys.gone k ≡ true
  unfolding step end_job Sessions.step
  dirty_gone nodes max exit_first s i k r answer h e dirty held =
      let (a, at, live) = All-get (λ x. LiveAt s.sys.subs x.handle) s.running i h.live e in
      let there : holding a.nodes k ≡ true = rw (at, nodes_of) at held in
      rw (e, dirty, at, live, step) (ground (arith, holding-append a.nodes s.sys.gone k))

  -- A node that has been evicted is in no job that runs.
  gone_unused :
      (nodes : List Node) (distinct : (k : ℕ) → cnt k nodes ≤ 1) (s : State) (k j : ℕ) (q : Running)
      → Owns nodes s
      → holding s.sys.gone k ≡ true
      → get_elem? s.running j ≡ some q
      → holding (nodes_of nodes encode lookup s q) k ≡ false
  gone_unused nodes distinct s k j q h gone f =
      let (_, in_use) =
        run-evicted nodes distinct h.ops k (subst (λ y. holding y.gone k ≡ true) h.driven gone) in
      let (_, _, tracked, _, _) = run-accounts nodes distinct h.ops in
      let (b, bt, live') = All-get (λ x. LiveAt s.sys.subs x.handle) s.running j h.live f in
      rw (bt, nodes_of)
        (holding-live s.sys.subs q.handle k b bt live'
          (subst (λ y. holding (live y.subs) k ≡ false) (sym h.driven) (sym (tracked k) ∙ in_use)))

  -- In a run over distinct nodes, once a job has ended with a dirty result, its nodes are never
  -- free again, and none of the jobs that run then or later has one of them, whatever the events
  -- before and after.
  pub run_quarantines :
      (nodes : List Node) (distinct : (k : ℕ) → cnt k nodes ≤ 1) (max : ℕ) (exit_first : Bool)
      (rs : List JobRequest) (es fs : List Event) (i k : ℕ) (r : Running)
      (answer : Option JobResult)
      → get_elem? (after encode lookup max exit_first nodes rs es).running i ≡ some r
      → (launched encode lookup r.req answer).dirty ≡ true
      → holding (nodes_of nodes encode lookup (after encode lookup max exit_first nodes rs es) r) k
        ≡ true
      → let s = after encode lookup max exit_first nodes rs (es ++ finish i answer ∷ fs) in
        (holding s.sys.pool.free_nodes k ≡ false)
        × (count_if (λ q. holding (nodes_of nodes encode lookup s q) k) s.running ≡ 0)
  unfolding run
  run_quarantines nodes distinct max exit_first rs es fs i k r answer e dirty held =
      let start = begin encode lookup nodes rs in
      let before = run encode lookup max exit_first start es in
      let s = run encode lookup max exit_first start (es ++ finish i answer ∷ fs) in
      let owned =
        run-Owns nodes encode lookup max exit_first start es (begin-Owns nodes encode lookup rs) in
      let h =
        run-Owns nodes encode lookup max exit_first start (es ++ finish i answer ∷ fs)
          (begin-Owns nodes encode lookup rs) in
      let gone : holding s.sys.gone k ≡ true =
        subst (λ y. holding y.sys.gone k ≡ true)
          (sym (run-append max exit_first start es (finish i answer ∷ fs)))
          (run_gone max exit_first (step encode lookup max exit_first before (finish i answer)) fs k
            (dirty_gone nodes max exit_first before i k r answer owned e dirty held)) in
      let (free, _) =
        run-evicted nodes distinct h.ops k (subst (λ y. holding y.gone k ≡ true) h.driven gone) in
      (
        subst (λ y. holding y.pool.free_nodes k ≡ false) (sym h.driven) free,
        count-none_of (λ q. holding (nodes_of nodes encode lookup s q) k) s.running
            (λ j q f. gone_unused nodes distinct s k j q h gone f),
      )

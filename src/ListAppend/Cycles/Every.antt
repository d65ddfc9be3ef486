-- ===== src/ListAppend/Cycles/Every.antt =====
-- listappend/listappend.go: every cycle of the graph is reported in some form.
use torx.Base.{
  ℕ, ◌≡◌, ◌≢◌, ◌<◌, refl, ◌⊎◌, inl, inr, List, [], ◌∷◌, ◌++◌, map, some, true, length, select, In,
  In-left, In-right, get_elem?-In, All, All-append, All-of_In, Option-cases,
}
use torx.ListAppend.Search.{Kind, Found, read_write}
use torx.ListAppend.Search.Graph.{Walk}
use torx.ListAppend.{
  Anomaly, g0, g1c, g_single, g_nonadjacent, g2, Checker, edges_of, forbidden, serializable,
}
use torx.ListAppend.Sccs.{sccs}
use torx.ListAppend.Sccs.Unparted.{sccs_cycle}
use torx.ListAppend.Cycles.{
  is_ww, not_rw, all_kinds, cycle_within, cycle_anomaly, pair_anomaly, or_g2, write_cycles,
  anti_cycles, component_anomalies, components_anomalies, apart, cycles, g_single_of, nonadjacent,
  pair_within,
}
use torx.ListAppend.Cycles.Complete.{cycle_within_misses_none}
use torx.ListAppend.Cycles.Unmissed.{Reports, In-components, cycles-g0, cycles-g1c, cycles-g_single}

-- A kind that serializability forbids is reported.
abbrev pub Unserializable : List Anomaly → Type 0
Unserializable out = (a : Anomaly) × In a out × In a.kind (forbidden serializable)

-- The graph has a row for each transaction, and its edges lead to transactions.
pub record Sized (c : Checker) : Type 0 where
  pub rows : length c.adj ≡ length c.txns
  pub bound : (x y : ℕ) (k : Kind) → In (y, k) (edges_of c x) → y < length c.txns

every_kind : (ks : List Kind) → All (λ k. all_kinds k ≡ true) ks
every_kind ks = All-of_In (λ k. all_kinds k ≡ true) ks (λ k i. refl)

module _ (c : Checker) (sized : Sized c) where
  -- In a graph that has a row for each transaction and whose edges lead to transactions, a cycle of
  -- two transactions or more along ww edges alone makes cycles report a G0.
  pub cycles_find_g0 :
      (v w : ℕ) (vs : List ℕ) (ks : List Kind)
      → Walk (edges_of c) v vs ks v
      → All (λ k. is_ww k ≡ true) ks
      → In w vs
      → v ≢ w
      → Reports c (cycles c) g0
  cycles_find_g0 v w vs ks walk oks i other =
      let (comp, listed, inside, all) =
        sccs_cycle c all_kinds sized.bound sized.rows v w vs ks walk (every_kind ks) i other in
      cycles-g0 c comp listed v vs ks walk oks inside all

  -- Where the graph has a row for each transaction and its edges lead to transactions, a cycle of
  -- two transactions or more without rw edges makes cycles report a G0 or a G1c.
  pub cycles_find_g1c :
      (v w : ℕ) (vs : List ℕ) (ks : List Kind)
      → Walk (edges_of c) v vs ks v
      → All (λ k. not_rw k ≡ true) ks
      → In w vs
      → v ≢ w
      → Reports c (cycles c) g0 ⊎ Reports c (cycles c) g1c
  cycles_find_g1c v w vs ks walk oks i other =
      let (comp, listed, inside, all) =
        sccs_cycle c all_kinds sized.bound sized.rows v w vs ks walk (every_kind ks) i other in
      cycles-g1c c comp listed v vs ks walk oks inside all

  -- In such a graph, an rw edge with a way back to where it starts without another rw edge makes
  -- cycles report a G-single.
  pub cycles_find_g_single :
      (a to : ℕ) (vs : List ℕ) (ks : List Kind)
      → In (to, read_write) (edges_of c a)
      → Walk (edges_of c) to vs ks a
      → All (λ k. not_rw k ≡ true) ks
      → a ≢ to
      → Reports c (cycles c) g_single
  cycles_find_g_single a to vs ks edge walk oks other =
      let (comp, listed, inside, all) =
        sccs_cycle c all_kinds sized.bound sized.rows a to (to ∷ vs) (read_write ∷ ks) (edge, walk)
          (every_kind (read_write ∷ ks)) (inl refl) other in
      cycles-g_single c comp listed a to vs ks inside edge all.0 walk oks all.1

  abbrev Serious : List Anomaly → Type 0
  Serious found = All (λ a. In a.kind (forbidden serializable)) found

  g0_forbidden : In g0 (forbidden serializable)
  unfolding forbidden
  g0_forbidden = get_elem?-In (forbidden serializable) 0 g0 refl

  g1c_forbidden : In g1c (forbidden serializable)
  unfolding forbidden
  g1c_forbidden = get_elem?-In (forbidden serializable) 3 g1c refl

  g_single_forbidden : In g_single (forbidden serializable)
  unfolding forbidden
  g_single_forbidden = get_elem?-In (forbidden serializable) 8 g_single refl

  g_nonadjacent_forbidden : In g_nonadjacent (forbidden serializable)
  unfolding forbidden
  g_nonadjacent_forbidden = get_elem?-In (forbidden serializable) 9 g_nonadjacent refl

  g2_forbidden : In g2 (forbidden serializable)
  unfolding forbidden
  g2_forbidden = get_elem?-In (forbidden serializable) 10 g2 refl

  write_cycles-Serious : (comp : List ℕ) → Serious (write_cycles c comp)
  unfolding write_cycles cycle_anomaly
  write_cycles-Serious comp = elim (Option-cases (cycle_within c comp is_ww)) [
    | inr (f, e) ↦ rw (write_cycles, e) (g0_forbidden, tt)
    | inl e ↦ elim (Option-cases (cycle_within c comp not_rw)) [
      | inr (f, e') ↦ rw (write_cycles, e, e') (g1c_forbidden, tt)
      | inl e' ↦ rw (write_cycles, e, e') tt
    ]
  ]

  anti_cycles-Serious : (comp : List ℕ) → Serious (anti_cycles c comp)
  unfolding anti_cycles cycle_anomaly pair_anomaly
  anti_cycles-Serious comp = elim (Option-cases (g_single_of c comp)) [
    | inr (f, e) ↦ rw (anti_cycles, e) (g_single_forbidden, tt)
    | inl e ↦ elim (Option-cases (pair_within comp c.pairs)) [
      | inr (p, e') ↦ rw (anti_cycles, e, e') (g_single_forbidden, tt)
      | inl e' ↦ elim (Option-cases (nonadjacent c comp)) [
        | inr (f, e'') ↦ rw (anti_cycles, e, e', e'') (g_nonadjacent_forbidden, tt)
        | inl e'' ↦ rw (anti_cycles, e, e', e'') tt
      ]
    ]
  ]

  -- Where a component has a cycle, something is reported of it.
  or_g2-some :
      (comp : List ℕ) (found : List Anomaly)
      → Serious found
      → (f : Found ℕ) → cycle_within c comp all_kinds ≡ some f
      → (a : Anomaly) × In a (or_g2 c comp found) × In a.kind (forbidden serializable)
  unfolding cycle_anomaly
  or_g2-some comp (a ∷ found) h f e = (a, inl refl, h.0)
  or_g2-some comp [] h f e = (cycle_anomaly c g2 f, (rw (or_g2, e) (inl refl)), g2_forbidden)

  -- In a graph that has a row for each transaction and whose edges lead to transactions, every cycle
  -- of two transactions or more, whatever its edges, makes cycles report an anomaly that
  -- serializability forbids.
  pub cycles_find_any :
      (v w : ℕ) (vs : List ℕ) (ks : List Kind)
      → Walk (edges_of c) v vs ks v
      → In w vs
      → v ≢ w
      → Unserializable (cycles c).out
  unfolding cycles component_anomalies
  cycles_find_any v w vs ks walk i other =
      let (comp, listed, inside, all) =
        sccs_cycle c all_kinds sized.bound sized.rows v w vs ks walk (every_kind ks) i other in
      let comps = sccs c all_kinds in
      let lone = map (pair_anomaly c) (select (apart comps) c.pairs) in
      elim (Option-cases (cycle_within c comp all_kinds)) [
        | inl e ↦
            elim (cycle_within_misses_none c comp all_kinds e v vs ks walk (every_kind ks) inside
              all) [ ]
        | inr (f, e) ↦
            let (a, j, bad) =
              or_g2-some comp (write_cycles c comp ++ anti_cycles c comp)
                (All-append (λ a. In a.kind (forbidden serializable)) (write_cycles c comp)
                  (anti_cycles c comp) (write_cycles-Serious comp) (anti_cycles-Serious comp))
                f e in
            (
              a,
              In-right a c.out (components_anomalies c comps ++ lone) (
                  In-left a (components_anomalies c comps) lone
                    (In-components c comps comp a listed j)),
              bad,
            )
      ]

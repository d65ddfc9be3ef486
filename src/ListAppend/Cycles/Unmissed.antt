-- ===== src/ListAppend/Cycles/Unmissed.antt =====
-- listappend/listappend.go: the cycles in a component that cycles does not leave out.
use torx.Base.{
  ℕ, ◌≡◌, refl, subst, ◌⊎◌, inl, inr, List, [], ◌∷◌, ◌++◌, map, none, some, true, select, In,
  In-left, In-right, All, Option-cases,
}
use torx.ListAppend.Search.{Kind, Found, read_write}
use torx.ListAppend.Search.Graph.{Walk}
use torx.ListAppend.{Anomaly, AnomalyKind, g0, g1c, g_single, Checker, edges_of}
use torx.ListAppend.Sccs.{sccs}
use torx.ListAppend.Cycles.{
  is_ww, not_rw, all_kinds, cycle_within, g_single_of, pair_anomaly, cycle_anomaly, write_cycles,
  anti_cycles, or_g2, component_anomalies, components_anomalies, apart, cycles,
}
use torx.ListAppend.Cycles.Complete.{cycle_within_misses_none, g_single_misses_none}

module _ (c : Checker) where
  -- An anomaly of the kind is reported.
  abbrev pub Reports : Checker → AnomalyKind → Type 0
  Reports d kind = (a : Anomaly) × In a d.out × (a.kind ≡ kind)

  pub In-or_g2 :
      (comp : List ℕ) (found : List Anomaly) (a : Anomaly) → In a found → In a (or_g2 c comp found)
  In-or_g2 comp [] a i = elim i [ ]
  In-or_g2 comp (b ∷ found) a i = i

  pub In-components :
      (comps : List (List ℕ)) (comp : List ℕ) (a : Anomaly)
      → In comp comps
      → In a (component_anomalies c comp)
      → In a (components_anomalies c comps)
  unfolding components_anomalies
  In-components [] comp a i j = elim i [ ]
  In-components (d ∷ comps) comp a (inl e) j =
      In-left a (component_anomalies c d) (components_anomalies c comps)
        (subst (λ z. In a (component_anomalies c z)) e j)
  In-components (d ∷ comps) comp a (inr i) j =
      In-right a (component_anomalies c d) (components_anomalies c comps)
        (In-components comps comp a i j)

  pub In-cycles :
      (comp : List ℕ) (a : Anomaly)
      → In comp (sccs c all_kinds)
      → In a (write_cycles c comp ++ anti_cycles c comp)
      → In a (cycles c).out
  unfolding cycles component_anomalies
  In-cycles comp a i j =
      let comps = sccs c all_kinds in
      let lone = map (pair_anomaly c) (select (apart comps) c.pairs) in
      In-right a c.out (components_anomalies c comps ++ lone) (
        In-left a (components_anomalies c comps) lone (
          In-components comps comp a i
            (In-or_g2 comp (write_cycles c comp ++ anti_cycles c comp) a j)))

  module _ (comp : List ℕ) where
    write_cycles_of_g0 :
        (f : Found ℕ)
        → cycle_within c comp is_ww ≡ some f
        → In (cycle_anomaly c g0 f) (write_cycles c comp)
    unfolding write_cycles
    write_cycles_of_g0 f e = rw (write_cycles, e) (inl refl)

    write_cycles_of_g1c :
        (f : Found ℕ)
        → cycle_within c comp is_ww ≡ none
        → cycle_within c comp not_rw ≡ some f
        → In (cycle_anomaly c g1c f) (write_cycles c comp)
    unfolding write_cycles
    write_cycles_of_g1c f e e' = rw (write_cycles, e, e') (inl refl)

    anti_cycles_of_g_single :
        (f : Found ℕ)
        → g_single_of c comp ≡ some f
        → In (cycle_anomaly c g_single f) (anti_cycles c comp)
    unfolding anti_cycles
    anti_cycles_of_g_single f e = rw (anti_cycles, e) (inl refl)

    module _ (listed : In comp (sccs c all_kinds)) where
      In-write : (a : Anomaly) → In a (write_cycles c comp) → In a (cycles c).out
      In-write a i =
          In-cycles comp a listed (In-left a (write_cycles c comp) (anti_cycles c comp) i)

      -- A cycle along ww edges in a component is reported as G0.
      pub cycles-g0 :
          (v : ℕ) (vs : List ℕ) (ks : List Kind)
          → Walk (edges_of c) v vs ks v
          → All (λ k. is_ww k ≡ true) ks
          → In v comp
          → All (λ w. In w comp) vs
          → Reports (cycles c) g0
      unfolding cycle_anomaly
      cycles-g0 v vs ks w oks i ins = elim (Option-cases (cycle_within c comp is_ww)) [
        | inl e ↦ elim (cycle_within_misses_none c comp is_ww e v vs ks w oks i ins) [ ]
        | inr (f, e) ↦
            (cycle_anomaly c g0 f, In-write (cycle_anomaly c g0 f) (write_cycles_of_g0 f e), refl)
      ]

      -- A cycle without rw edges in a component is reported, or another of it, as G0 or as G1c.
      pub cycles-g1c :
          (v : ℕ) (vs : List ℕ) (ks : List Kind)
          → Walk (edges_of c) v vs ks v
          → All (λ k. not_rw k ≡ true) ks
          → In v comp
          → All (λ w. In w comp) vs
          → Reports (cycles c) g0 ⊎ Reports (cycles c) g1c
      unfolding cycle_anomaly
      cycles-g1c v vs ks w oks i ins = elim (Option-cases (cycle_within c comp is_ww)) [
        | inr (f, e) ↦
            inl
              (cycle_anomaly c g0 f, In-write (cycle_anomaly c g0 f) (write_cycles_of_g0 f e), refl)
        | inl e ↦ elim (Option-cases (cycle_within c comp not_rw)) [
          | inl e' ↦ elim (cycle_within_misses_none c comp not_rw e' v vs ks w oks i ins) [ ]
          | inr (f, e') ↦ inr (
            cycle_anomaly c g1c f,
            In-write (cycle_anomaly c g1c f) (write_cycles_of_g1c f e e'),
            refl,
          )
        ]
      ]

      -- A cycle with exactly one rw edge in a component makes cycles report a G-single.
      pub cycles-g_single :
          (a to : ℕ) (vs : List ℕ) (ks : List Kind)
          → In a comp
          → In (to, read_write) (edges_of c a)
          → In to comp
          → Walk (edges_of c) to vs ks a
          → All (λ k. not_rw k ≡ true) ks
          → All (λ w. In w comp) vs
          → Reports (cycles c) g_single
      unfolding cycle_anomaly
      cycles-g_single a to vs ks i edge j w oks ins = elim (Option-cases (g_single_of c comp)) [
        | inl e ↦ elim (g_single_misses_none c comp e a to vs ks i edge j w oks ins) [ ]
        | inr (f, e) ↦ (
          cycle_anomaly c g_single f,
          In-cycles comp (cycle_anomaly c g_single f) listed (
              In-right (cycle_anomaly c g_single f) (write_cycles c comp) (anti_cycles c comp)
                (anti_cycles_of_g_single f e)),
          refl,
        )
      ]

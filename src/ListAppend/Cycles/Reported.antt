-- ===== src/ListAppend/Cycles/Reported.antt =====
-- listappend/listappend.go: what cycles adds to the report, and what it does not leave out.
use mathlib.Core.Option.{some-injective}
use torx.Base.{
  ℕ, ◌≡◌, refl, sym, ◌⊎◌, inl, inr, List, [], ◌∷◌, ◌++◌, map, Option, none, some, Bool, true, false,
  not, ◌&&◌, any, select, if◌then◌else◌, In, In-select, All, All-append, arith, Bool-cases,
  Option-cases,
}
use torx.ListAppend.Search.{Kind, Found}
use torx.ListAppend.{Pair, Anomaly, AnomalyKind, g0, g1c, g_single, g_nonadjacent, g2, Checker}
use torx.ListAppend.Sccs.{sccs}
use torx.ListAppend.Cycles.{
  is_rw, is_ww, not_rw, all_kinds, within, cycle_within, g_single_of, nonadjacent, pair_within,
  pair_anomaly, cycle_anomaly, write_cycles, anti_cycles, or_g2, component_anomalies,
  components_anomalies, apart, cycles,
}
use torx.ListAppend.Cycles.Sound.{
  SimpleCycle, SingleCycle, SpacedCycle, cycle_within-SimpleCycle, g_single-SingleCycle,
}
use torx.ListAppend.Cycles.Spaced.{nonadjacent-SpacedCycle}
use torx.ListAppend.Cycles.Complete.{cycle_within_misses_none}

-- What a cycle of a kind is.
abbrev pub OfKind : Checker → List ℕ → AnomalyKind → Found ℕ → Type 0
OfKind c comp g0 f = SimpleCycle c comp is_ww f
OfKind c comp g1c f = SimpleCycle c comp not_rw f × (any (λ k. not (is_ww k)) f.1 ≡ true)
OfKind c comp g_single f = SingleCycle c f
OfKind c comp g_nonadjacent f = SpacedCycle c f
OfKind c comp g2 f = SimpleCycle c comp all_kinds f × (any is_rw f.1 ≡ true)
OfKind c comp _ f = ⊥

-- A report is a cycle of its kind in the graph, or a lost update.
abbrev pub Shown : Checker → Anomaly → Type 0
Shown c a =
    ((comp : List ℕ) × (f : Found ℕ) × (a ≡ cycle_anomaly c a.kind f) × OfKind c comp a.kind f)
    ⊎ ((p : Pair) × In p c.pairs × (a ≡ pair_anomaly c p))

any-All :
    (p : Kind → Bool) (ks : List Kind) → any (λ k. not (p k)) ks ≡ false → All (λ k. p k ≡ true) ks
any-All p [] h = tt
any-All p (k ∷ ks) h = elim (Bool-cases (p k)) [
  | inl e ↦ (e, any-All p ks (ground (arith, h, e)))
  | inr e ↦ ground (arith, h, e)
]

picked :
    (b : Bool) (q p : Pair) (ps : List Pair) (later : Option Pair)
    → (if b then some q else later) ≡ some p
    → (later ≡ some p → In p ps)
    → In p (q ∷ ps)
picked true q p ps later e h = inl (some-injective p q (sym e))
picked false q p ps later e h = inr (h e)

any-not-not : (ks : List Kind) → any (λ k. not (not_rw k)) ks ≡ true → any is_rw ks ≡ true
any-not-not [] h = h
any-not-not (k ∷ ks) h = ground (arith, h, any-not-not ks)

module _ (c : Checker) (comp : List ℕ) where
  -- Where there is no cycle of some kinds, a cycle has an edge of another.
  other_kind :
      (ok all : Kind → Bool) (f : Found ℕ)
      → cycle_within c comp ok ≡ none
      → SimpleCycle c comp all f
      → any (λ k. not (ok k)) f.1 ≡ true
  other_kind ok all ([], ks) e h = elim h.0 [ ]
  other_kind ok all (v ∷ vs, ks) e (w, ds, oks, ins) =
      elim (Bool-cases (any (λ k. not (ok k)) ks)) [
        | inl h ↦ h
        | inr h ↦
            elim (cycle_within_misses_none c comp ok e v vs ks w (any-All ok ks h) ins.0 ins.1) [ ]
      ]

  shown :
      (kind : AnomalyKind) (f : Found ℕ) → OfKind c comp kind f → Shown c (cycle_anomaly c kind f)
  unfolding cycle_anomaly
  shown kind f h = inl (comp, f, refl, h)

  write_cycles-Shown : All (Shown c) (write_cycles c comp)
  unfolding write_cycles
  write_cycles-Shown = elim (Option-cases (cycle_within c comp is_ww)) [
    | inr (f, e) ↦ rw (write_cycles, e) (shown g0 f (cycle_within-SimpleCycle c comp is_ww f e), tt)
    | inl e ↦ elim (Option-cases (cycle_within c comp not_rw)) [
      | inr (f, e') ↦
          let h = cycle_within-SimpleCycle c comp not_rw f e' in
          rw (write_cycles, e, e') (shown g1c f (h, other_kind is_ww not_rw f e h), tt)
      | inl e' ↦ rw (write_cycles, e, e') tt
    ]
  ]

  pair_within-In : (ps : List Pair) (p : Pair) → pair_within comp ps ≡ some p → In p ps
  unfolding pair_within
  pair_within-In [] p e = cc
  pair_within-In (q ∷ ps) p e =
      picked (within comp q.a && within comp q.b) q p ps (pair_within comp ps) e
        (pair_within-In ps p)

  anti_cycles-Shown : All (Shown c) (anti_cycles c comp)
  unfolding anti_cycles
  anti_cycles-Shown = elim (Option-cases (g_single_of c comp)) [
    | inr (f, e) ↦ rw (anti_cycles, e) (shown g_single f (g_single-SingleCycle c comp f e), tt)
    | inl e ↦ elim (Option-cases (pair_within comp c.pairs)) [
      | inr (p, e') ↦ rw (anti_cycles, e, e') (inr (p, pair_within-In c.pairs p e', refl), tt)
      | inl e' ↦ elim (Option-cases (nonadjacent c comp)) [
        | inr (f, e'') ↦
            rw (anti_cycles, e, e', e'')
              (shown g_nonadjacent f (nonadjacent-SpacedCycle c comp f e''), tt)
        | inl e'' ↦ rw (anti_cycles, e, e', e'') tt
      ]
    ]
  ]

  no_write_cycle :
      write_cycles c comp ++ anti_cycles c comp ≡ [] → cycle_within c comp not_rw ≡ none
  unfolding write_cycles
  no_write_cycle = elim (Option-cases (cycle_within c comp is_ww)) [
    | inr (f, e) ↦ rw (write_cycles, e) (λ z. cc)
    | inl e ↦ elim (Option-cases (cycle_within c comp not_rw)) [
      | inr (f, e') ↦ rw (write_cycles, e, e') (λ z. cc)
      | inl e' ↦ λ z. e'
    ]
  ]

  or_g2-Shown :
      (found : List Anomaly)
      → found ≡ write_cycles c comp ++ anti_cycles c comp
      → All (Shown c) found
      → All (Shown c) (or_g2 c comp found)
  or_g2-Shown (a ∷ found) at h = h
  or_g2-Shown [] at h = elim (Option-cases (cycle_within c comp all_kinds)) [
    | inl e ↦ rw (or_g2, e) tt
    | inr (f, e) ↦
        let cyc = cycle_within-SimpleCycle c comp all_kinds f e in
        rw (or_g2, e)
          (
            shown g2 f (
              cyc,
              any-not-not f.1 (other_kind not_rw all_kinds f (no_write_cycle (sym at)) cyc),
            ),
            tt,
          )
  ]

  component-Shown : All (Shown c) (component_anomalies c comp)
  unfolding component_anomalies
  component-Shown = or_g2-Shown (write_cycles c comp ++ anti_cycles c comp) refl (
      All-append (Shown c) (write_cycles c comp) (anti_cycles c comp) write_cycles-Shown
        anti_cycles-Shown)

module _ (c : Checker) where
  components-Shown : (comps : List (List ℕ)) → All (Shown c) (components_anomalies c comps)
  unfolding components_anomalies
  components-Shown [] = tt
  components-Shown (comp ∷ comps) =
      All-append (Shown c) (component_anomalies c comp) (components_anomalies c comps)
        (component-Shown c comp) (components-Shown comps)

  pairs-Shown :
      (ps : List Pair)
      → ((p : Pair) → In p ps → In p c.pairs)
      → All (Shown c) (map (pair_anomaly c) ps)
  pairs-Shown [] sub = tt
  pairs-Shown (p ∷ ps) sub =
      (inr (p, sub p (inl refl), refl), pairs-Shown ps (λ q i. sub q (inr i)))

  -- Whatever the graph and the pairs, cycles adds reports to those there are, and each is a lost
  -- update among the pairs or names a closed walk of the graph: for G0 along ww edges alone, for
  -- G1c without rw and with an edge that is not ww, for G-single with exactly one rw, for
  -- G-nonadjacent with rw edges but no two in a row around the cycle, for G2 with an rw edge; all
  -- but that of G-single visit no transaction twice.
  pub cycles-Shown :
      (added : List Anomaly) × ((cycles c).out ≡ c.out ++ added) × All (Shown c) added
  unfolding cycles
  cycles-Shown =
      let comps = sccs c all_kinds in
      let lone = select (apart comps) c.pairs in
      (
        components_anomalies c comps ++ map (pair_anomaly c) lone,
        refl,
        All-append (Shown c) (components_anomalies c comps) (map (pair_anomaly c) lone)
            (components-Shown comps)
            (pairs-Shown lone (λ p i. (In-select (apart comps) c.pairs p i).0)),
      )

-- ===== src/ListAppend/Cycles.antt =====
-- listappend/listappend.go: path, cycleWithin, gSingle, nonadjacent and distinct, which look for
-- cycles in a component, and cycles, which reports what they find. `comp` is a component, and also
-- the map `in` of its vertices.
pub mod Paths
pub mod Sound
pub mod Spaced
pub mod Complete
pub mod Reported
pub mod Unmissed
pub mod Every
use torx.Base.{
  ℕ, zero, suc, ◌+◌, List, [], ◌∷◌, ◌++◌, map, Option, none, some, Bool, true, false, not, ◌&&◌,
  ◌||◌, any, length, select, if◌then◌else◌, ◌==◌, ltb,
}
use torx.ListAppend.Search.{
  Kind, Found, search, write_write, write_read, read_write, realtime, process,
}
use torx.ListAppend.{
  Edge, Pair, Anomaly, AnomalyKind, g0, g1c, g_single, g_nonadjacent, g2, Checker, report, id_of,
  edges_of,
}
use torx.ListAppend.Sccs.{sccs}

abbrev pub is_rw : Kind → Bool
is_rw read_write = true
is_rw _ = false

abbrev pub is_ww : Kind → Bool
is_ww write_write = true
is_ww _ = false

abbrev pub not_rw : Kind → Bool
not_rw k = not (is_rw k)

abbrev pub all_kinds : Kind → Bool
all_kinds k = true

abbrev pub within : List ℕ → ℕ → Bool
within comp v = any (◌==◌ v) comp

-- The edges inside a component that `ok` accepts.
abbrev pub inside : Checker → List ℕ → (Kind → Bool) → ℕ → List Edge
inside c comp ok v = select (λ e. ok e.1 && within comp e.0) (edges_of c v)

-- The fuel is for the vertices of the component, the source and one more.
unfoldable pub path : Checker → List ℕ → (Kind → Bool) → ℕ → ℕ → Option (Found ℕ)
path c comp ok src dst = search ◌==◌ (inside c comp ok) (λ f. true) dst (suc (length comp)) src

abbrev pub shorter : Found ℕ → Option (Found ℕ) → Bool
shorter f none = true
shorter f (some best) = ltb (length f.0) (length best.0)

-- The loop of cycleWithin over the vertices, with the best cycle so far.
pub cycle_from : Checker → List ℕ → (Kind → Bool) → List ℕ → Option (Found ℕ) → Option (Found ℕ)
cycle_from c comp ok [] best = best
cycle_from c comp ok (v ∷ vs) best =
    let rest = cycle_from c comp ok vs in
    elim (path c comp ok v v) [
      | none ↦ rest best
      | some f ↦
          if shorter f best then if length f.0 == 2 then some f else rest (some f) else rest best
    ]

unfoldable pub cycle_within : Checker → List ℕ → (Kind → Bool) → Option (Found ℕ)
cycle_within c comp ok = cycle_from c comp ok comp none

-- The loop of gSingle over the edges of a vertex.
pub single_edges : Checker → List ℕ → ℕ → List Edge → Option (Found ℕ)
single_edges c comp a [] = none
single_edges c comp a ((to, kind) ∷ es) =
    let rest = single_edges c comp a es in
    if not (is_rw kind) || not (within comp to) then rest else elim (path c comp not_rw to a) [
      | none ↦ rest
      | some (back, kinds) ↦ some (a ∷ back, read_write ∷ kinds)
    ]

pub single_from : Checker → List ℕ → List ℕ → Option (Found ℕ)
single_from c comp [] = none
single_from c comp (a ∷ vs) = elim (single_edges c comp a (edges_of c a)) [
  | none ↦ single_from c comp vs
  | some f ↦ some f
]

unfoldable pub g_single_of : Checker → List ℕ → Option (Found ℕ)
g_single_of c comp = single_from c comp comp

pub distinct_from : List ℕ → List ℕ → Bool
distinct_from seen [] = true
distinct_from seen (v ∷ vs) = not (any (◌==◌ v) seen) && distinct_from (v ∷ seen) vs

unfoldable pub distinct : List ℕ → Bool
distinct vs = distinct_from [] vs

-- The states of nonadjacent: a transaction, and whether it was arrived at by rw.
abbrev pub Arrival : Type 0
Arrival = ℕ × Bool

abbrev pub same_arrival : Arrival → Arrival → Bool
same_arrival (v, true) (w, true) = v == w
same_arrival (v, false) (w, false) = v == w
same_arrival _ _ = false

abbrev pub arrive : Edge → Arrival × Kind
arrive (to, kind) = ((to, is_rw kind), kind)

-- An rw edge cannot leave a state that was arrived at by one.
abbrev pub arrivals : Checker → List ℕ → Arrival → List (Arrival × Kind)
arrivals c comp (v, by_rw) =
    map arrive (select (λ e. within comp e.0 && not (is_rw e.1 && by_rw)) (edges_of c v))

-- A walk is kept if it has an rw edge and visits no transaction twice.
abbrev pub keeps : Found Arrival → Bool
keeps (verts, kinds) = any is_rw kinds && distinct (map (λ s. s.0) verts)

-- The fuel is for both states of each vertex, and one more.
unfoldable pub nonadjacent_from : Checker → List ℕ → Arrival → Option (Found Arrival)
nonadjacent_from c comp s₀ =
    search same_arrival (arrivals c comp) keeps s₀ (suc (length comp + length comp)) s₀

abbrev pub transactions : Found Arrival → Found ℕ
transactions (verts, kinds) = (map (λ s. s.0) verts, kinds)

pub nonadjacent_starts : Checker → List ℕ → List ℕ → Option (Found ℕ)
nonadjacent_starts c comp [] = none
nonadjacent_starts c comp (start ∷ vs) = elim (nonadjacent_from c comp (start, false)) [
  | some f ↦ some (transactions f)
  | none ↦ elim (nonadjacent_from c comp (start, true)) [
    | some f ↦ some (transactions f)
    | none ↦ nonadjacent_starts c comp vs
  ]
]

unfoldable pub nonadjacent : Checker → List ℕ → Option (Found ℕ)
nonadjacent c comp = nonadjacent_starts c comp comp

pub pair_within : List ℕ → List Pair → Option Pair
pair_within comp [] = none
pair_within comp (p ∷ ps) =
    if within comp p.a && within comp p.b then some p else pair_within comp ps

-- reportPair and reportCycle, without the texts.
unfoldable pub pair_anomaly : Checker → Pair → Anomaly
pair_anomaly c p = record {
  kind = g_single;
  key = p.key;
  txns = id_of c p.a ∷ id_of c p.b ∷ [];
  edges = write_write ∷ read_write ∷ [];
}

unfoldable pub cycle_anomaly : Checker → AnomalyKind → Found ℕ → Anomaly
cycle_anomaly c kind (cyc, kinds) = record {
  kind = kind;
  key = "";
  txns = map (id_of c) cyc;
  edges = kinds;
}

-- What is reported of a component: G0 or G1c, then the rest.
unfoldable pub write_cycles : Checker → List ℕ → List Anomaly
write_cycles c comp = elim (cycle_within c comp is_ww) [
  | some f ↦ cycle_anomaly c g0 f ∷ []
  | none ↦ elim (cycle_within c comp not_rw) [ some f ↦ cycle_anomaly c g1c f ∷ [] | none ↦ [] ]
]

unfoldable pub anti_cycles : Checker → List ℕ → List Anomaly
anti_cycles c comp = elim (g_single_of c comp) [
  | some f ↦ cycle_anomaly c g_single f ∷ []
  | none ↦ elim (pair_within comp c.pairs) [
    | some p ↦ pair_anomaly c p ∷ []
    | none ↦ elim (nonadjacent c comp) [ some f ↦ cycle_anomaly c g_nonadjacent f ∷ [] | none ↦ [] ]
  ]
]

-- G2 is reported where nothing else was found.
abbrev pub or_g2 : Checker → List ℕ → List Anomaly → List Anomaly
or_g2 c comp (a ∷ found) = a ∷ found
or_g2 c comp [] = elim (cycle_within c comp all_kinds) [
  | some f ↦ cycle_anomaly c g2 f ∷ []
  | none ↦ []
]

unfoldable pub component_anomalies : Checker → List ℕ → List Anomaly
component_anomalies c comp = or_g2 c comp (write_cycles c comp ++ anti_cycles c comp)

pub components_anomalies : Checker → List (List ℕ) → List Anomaly
components_anomalies c [] = []
components_anomalies c (comp ∷ comps) = component_anomalies c comp ++ components_anomalies c comps

-- `component[v]`, for components numbered from `suc n` on.
pub component : ℕ → List (List ℕ) → ℕ → ℕ
component n [] v = 0
component n (comp ∷ comps) v =
    let later = component (suc n) comps v in
    if not (later == 0) then later else if within comp v then suc n else 0

-- Whether no component holds both transactions of a pair.
unfoldable pub apart : List (List ℕ) → Pair → Bool
apart comps p = component 0 comps p.a == 0 || not (component 0 comps p.a == component 0 comps p.b)

unfoldable pub cycles : Checker → Checker
cycles c =
    let comps = sccs c all_kinds in
    record c {
      out =
          c.out
          ++ (components_anomalies c comps ++ map (pair_anomaly c) (select (apart comps) c.pairs));
    }

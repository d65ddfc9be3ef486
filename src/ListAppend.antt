-- ===== src/ListAppend.antt =====
-- listappend/listappend.go: the checker of histories of transactions over lists. Transactions are
-- named by their places in the history, as in the source; a slice that the source indexes within
-- bounds has a default here, which is never taken. A Go map is an association list in the order in
-- which its keys were put, so a loop over a map's keys runs in that order. The texts of Detail are
-- left out. This file has the data, the children the passes of Check.
pub mod Search
pub mod Maps
pub mod History
pub mod Reads
pub mod Edges
pub mod Sccs
pub mod Cycles
pub mod Check
use Prim.Native.Nat.{Ordering}
use Prim.Native.String.{compare}
use torx.Base.{
  ℕ, String, List, [], ◌∷◌, ◌++◌, map, Option, none, some, Bool, true, false, ◌&&◌, get_elem?,
  if◌then◌else◌, ◌==◌, str_eq,
}
use torx.Base.Int.{ℤ, pos}
use torx.ListAppend.Search.{Kind}

pub data Status : Type 0 where
  committed aborted unknown : Status

-- One operation of a transaction: an append of a value, or a read that returned a list.
pub record Mop : Type 0 where
  pub append : Bool
  pub key : String
  pub value : String
  pub read : List String

pub record Txn : Type 0 where
  pub id : ℤ
  pub process : ℤ
  pub call : ℤ
  pub returned : ℤ
  pub status : Status
  pub mops : List Mop

pub record Options : Type 0 where
  pub realtime : Bool
  pub process : Bool

-- The kinds of an anomaly, as the source spells them in Anomaly.Kind.
pub data AnomalyKind : Type 0 where
  g0 g1a g1b g1c g_single g_nonadjacent g2 : AnomalyKind
  incompatible_order duplicate internal nonrepeatable lost : AnomalyKind

pub record Anomaly : Type 0 where
  pub kind : AnomalyKind
  pub key : String
  pub txns : List ℤ
  pub edges : List Kind

-- The levels that Forbidden knows; any other text is `other`.
pub data Level : Type 0 where
  read_committed snapshot_isolation serializable strict_serializable other : Level

-- What snapshot isolation forbids beyond the base.
abbrev forbidden_more : List AnomalyKind
forbidden_more = nonrepeatable ∷ g_single ∷ g_nonadjacent ∷ []

abbrev base : List AnomalyKind
base = g0 ∷ g1a ∷ g1b ∷ g1c ∷ incompatible_order ∷ duplicate ∷ internal ∷ []

unfoldable pub forbidden : Level → List AnomalyKind
forbidden read_committed = base
forbidden snapshot_isolation = base ++ forbidden_more
forbidden serializable = base ++ forbidden_more ++ g2 ∷ lost ∷ []
forbidden strict_serializable = base ++ forbidden_more ++ g2 ∷ lost ∷ []
forbidden other = []

-- The transaction that an edge leads to, and the kind of the edge.
abbrev pub Edge : Type 0
Edge = ℕ × Kind

-- Two transactions that each read a key and appended to it unread.
pub record Pair : Type 0 where
  pub a : ℕ
  pub b : ℕ
  pub key : String

pub record Checker : Type 0 where
  pub txns : List Txn
  pub opts : Options
  pub writer : List ((String × String) × ℕ)
  pub appended : List ((String × ℕ) × List String)
  pub order : List (String × List String)
  pub took : List Bool
  pub adj : List (List Edge)
  pub pairs : List Pair
  pub out : List Anomaly

abbrev pub report : Checker → Anomaly → Checker
report c a = record c { out = c.out ++ a ∷ [] }

-- Go's map of any key type: what stands under a key, and putting under a key.
module _ {K V : Type 0} (same : K → K → Bool) where
  abbrev pub find : K → List (K × V) → Option V
  find k [] = none
  find k ((k', v) ∷ kvs) = if same k' k then some v else find k kvs

  abbrev pub put : K → V → List (K × V) → List (K × V)
  put k v [] = (k, v) ∷ []
  put k v ((k', w) ∷ kvs) = if same k' k then (k', v) ∷ kvs else (k', w) ∷ put k v kvs

-- Go's zero value where there is none.
abbrev pub or_empty : {V : Type 0} → Option (List V) → List V
or_empty none = []
or_empty (some vs) = vs

abbrev pub same_name : String × String → String × String → Bool
same_name (k, v) (k', v') = str_eq k k' && str_eq v v'

abbrev pub same_slot : String × ℕ → String × ℕ → Bool
same_slot (k, i) (k', j) = str_eq k k' && i == j

abbrev pub string_lt : String → String → Bool
string_lt a b = elim (compare a b) [ Ordering.lt ↦ true | _ ↦ false ]

-- slices.Equal
unfoldable pub same_list : List String → List String → Bool
same_list [] [] = true
same_list (x ∷ xs) (y ∷ ys) = str_eq x y && same_list xs ys
same_list _ _ = false

-- c.writer[key][value]
abbrev pub writer_of : Checker → String → String → Option ℕ
writer_of c key value = find same_name (key, value) c.writer

-- c.appended[key][i]
abbrev pub appended_by : Checker → String → ℕ → List String
appended_by c key i = or_empty (find same_slot (key, i) c.appended)

-- c.order[key]
abbrev pub order_of : Checker → String → List String
order_of c key = or_empty (find str_eq key c.order)

-- c.txns[i].ID
abbrev pub id_of : Checker → ℕ → ℤ
id_of c i = elim (get_elem? c.txns i) [ none ↦ pos 0 | some t ↦ t.id ]

abbrev pub status_of : Checker → ℕ → Status
status_of c i = elim (get_elem? c.txns i) [ none ↦ unknown | some t ↦ t.status ]

abbrev pub is_committed : Status → Bool
is_committed committed = true
is_committed _ = false

abbrev pub is_aborted : Status → Bool
is_aborted aborted = true
is_aborted _ = false

abbrev pub is_unknown : Status → Bool
is_unknown unknown = true
is_unknown _ = false

-- c.took[i]
abbrev pub took_effect : Checker → ℕ → Bool
took_effect c i = elim (get_elem? c.took i) [ none ↦ false | some b ↦ b ]

-- c.adj[v]
abbrev pub edges_of : Checker → ℕ → List Edge
edges_of c v = or_empty (get_elem? c.adj v)

-- ===== src/ListAppend/History.antt =====
-- listappend/listappend.go: the passes appends, internal, orders and effects, and external.
pub mod Keeps
pub mod Writers
use torx.Base.{
  ℕ, suc, ◌-◌, String, List, [], ◌∷◌, ◌++◌, map, Option, none, some, Bool, true, false, not, ◌&&◌,
  ◌||◌, any, length, set, take, drop, if◌then◌else◌, ◌==◌, ltb, str_eq,
}
use torx.Base.Int.{ℤ}
use torx.ListAppend.{
  Mop, Txn, Anomaly, AnomalyKind, duplicate, internal, nonrepeatable, incompatible_order, Checker,
  report, find, put, or_empty, same_name, same_slot, same_list, writer_of, appended_by, id_of,
  status_of, is_committed, is_unknown,
}

-- An anomaly that is no cycle.
abbrev pub anomaly : AnomalyKind → String → List ℤ → Anomaly
anomaly kind key txns = record { kind = kind; key = key; txns = txns; edges = [] }

-- The body of appends: an operation of the transaction at place `i`.
unfoldable pub note_append : ℕ → Txn → Checker → Mop → Checker
note_append i t c m =
    if not m.append
    then c
    else let noted = record c {
      appended = put same_slot (m.key, i) (appended_by c m.key i ++ m.value ∷ []) c.appended;
    } in
      let told : Checker = elim (writer_of noted m.key m.value) [
        | none ↦ noted
        | some j ↦
            if j == i
            then noted
            else report noted (anomaly duplicate m.key (id_of noted j ∷ t.id ∷ []))
      ] in
      record told { writer = put same_name (m.key, m.value) i told.writer }

unfoldable pub note_appends : ℕ → Txn → Checker → List Mop → Checker
note_appends i t c [] = c
note_appends i t c (m ∷ ms) = note_appends i t (note_append i t c m) ms

unfoldable pub appends_from : ℕ → List Txn → Checker → Checker
appends_from i [] c = c
appends_from i (t ∷ ts) c = appends_from (suc i) ts (note_appends i t c t.mops)

unfoldable pub appends : Checker → Checker
appends c = appends_from 0 c.txns c

-- What internal has of a transaction: its appends so far to each key, and what its last read of
-- each key showed of others'; `read[key]` says that `others` has the key.
pub record Views : Type 0 where
  pub own : List (String × List String)
  pub others : List (String × List String)

abbrev pub changed : Option (List String) → List String → Bool
changed none rest = false
changed (some before) rest = not (same_list rest before)

unfoldable pub internal_mop : Txn → Checker → Views → Mop → Checker × Views
internal_mop t c s m =
    let mine = or_empty (find str_eq m.key s.own) in
    let prefix = length m.read - length mine in
    if m.append
    then (c, record s { own = put str_eq m.key (mine ++ m.value ∷ []) s.own })
    else if ltb (length m.read) (length mine) || not (same_list (drop prefix m.read) mine)
    then (report c (anomaly internal m.key (t.id ∷ [])), s)
    else let rest = take prefix m.read in
      (
        if changed (find str_eq m.key s.others) rest
            then report c (anomaly nonrepeatable m.key (t.id ∷ []))
            else c,
        record s { others = put str_eq m.key rest s.others },
      )

unfoldable pub internal_mops : Txn → Checker → Views → List Mop → Checker
internal_mops t c s [] = c
internal_mops t c s (m ∷ ms) = let (c', s') = internal_mop t c s m in internal_mops t c' s' ms

unfoldable pub internals : List Txn → Checker → Checker
internals [] c = c
internals (t ∷ ts) c = internals ts (
    if is_committed t.status
    then internal_mops t c (record { own = []; others = [] }) t.mops
    else c)

-- Reads before any append of the transaction's own to the key; `keys` are those appended to.
unfoldable pub external_from : List String → List Mop → List Mop
external_from keys [] = []
external_from keys (m ∷ ms) =
    let rest = external_from (if m.append then m.key ∷ keys else keys) ms in
    if m.append || any (str_eq m.key) keys then rest else m ∷ rest

unfoldable pub external : Txn → List Mop
external t = external_from [] t.mops

-- A read and who made it.
abbrev pub Reading : Type 0
Reading = List String × ℤ

-- `reads` and `who` of orders.
unfoldable pub readings_of :
    Txn → List Mop → List (String × List Reading) → List (String × List Reading)
readings_of t [] rs = rs
readings_of t (m ∷ ms) rs = readings_of t ms (
    if m.append
    then rs
    else put str_eq m.key (or_empty (find str_eq m.key rs) ++ (m.read, t.id) ∷ []) rs)

unfoldable pub readings : List Txn → List (String × List Reading) → List (String × List Reading)
readings [] rs = rs
readings (t ∷ ts) rs = readings ts (if is_committed t.status then readings_of t t.mops rs else rs)

-- The elements that a read has twice.
unfoldable pub report_twice : String → ℤ → List String → List String → Checker → Checker
report_twice k id seen [] c = c
report_twice k id seen (v ∷ vs) c =
    report_twice k id (v ∷ seen) vs
      (if any (str_eq v) seen then report c (anomaly duplicate k (id ∷ [])) else c)

-- The first of the longest reads, from the longest so far.
unfoldable pub longest_of : String → Reading → List Reading → Checker → Reading × Checker
longest_of k best [] c = (best, c)
longest_of k best (r ∷ rs) c =
    longest_of k (if ltb (length best.0) (length r.0) then r else best) rs
      (report_twice k r.1 [] r.0 c)

-- Whether a read is a prefix of an order.
abbrev pub prefix_of : List String → List String → Bool
prefix_of read order =
    not (ltb (length order) (length read)) && same_list (take (length read) order) read

unfoldable pub report_orders : String → Reading → List Reading → Checker → Checker
report_orders k longest [] c = c
report_orders k longest (r ∷ rs) c = report_orders k longest rs (
    if not (prefix_of r.0 longest.0)
    then report c (anomaly incompatible_order k (r.1 ∷ longest.1 ∷ []))
    else c)

unfoldable pub order_key : String → List Reading → Checker → Checker
order_key k [] c = c
order_key k (r ∷ rs) c =
    let (longest, told) = longest_of k r (r ∷ rs) c in
    let all_told = report_orders k longest (r ∷ rs) told in
    record all_told { order = put str_eq k longest.0 all_told.order }

unfoldable pub order_keys : List (String × List Reading) → Checker → Checker
order_keys [] c = c
order_keys ((k, rs) ∷ rest) c = order_keys rest (order_key k rs c)

unfoldable pub orders : Checker → Checker
orders c = order_keys (readings c.txns []) c

-- The elements of a version order show that their writers in doubt took effect.
unfoldable pub mark_took : String → List String → Checker → Checker
mark_took k [] c = c
mark_took k (v ∷ vs) c = mark_took k vs (elim (writer_of c k v) [
  | none ↦ c
  | some w ↦ if is_unknown (status_of c w) then record c { took = set c.took w true } else c
])

unfoldable pub mark_all : List (String × List String) → Checker → Checker
mark_all [] c = c
mark_all ((k, order) ∷ rest) c = mark_all rest (mark_took k order c)

unfoldable pub effects : Checker → Checker
effects c = mark_all c.order (record c { took = map (λ t. is_committed t.status) c.txns })

-- ===== src/ListAppend/Edges.antt =====
-- listappend/listappend.go: the pass edges, which builds the graph of dependencies over the
-- transactions that took effect, and collects the lost updates among unread appends.
pub mod Bounds
use torx.Base.{
  ℕ, suc, String, List, [], ◌∷◌, ◌++◌, map, Option, none, some, Bool, true, false, not, ◌&&◌, ◌||◌,
  any, length, get_elem?, set, last, select, if◌then◌else◌, ◌==◌, ltb, str_eq,
}
use torx.Base.Int.{ℤ, ltb_ℤ, eqb_ℤ, pos, negsuc}
use torx.Base.Sort.{sort_stable}
use torx.ListAppend.Search.{Kind, write_write, write_read, read_write, realtime, process}
use torx.ListAppend.{
  Mop, Txn, Pair, Checker, find, put, or_empty, same_list, string_lt, writer_of, order_of,
  is_committed, took_effect, edges_of,
}
use torx.ListAppend.History.{external, prefix_of}

abbrev pub same_kind : Kind → Kind → Bool
same_kind write_write write_write = true
same_kind write_read write_read = true
same_kind read_write read_write = true
same_kind realtime realtime = true
same_kind process process = true
same_kind _ _ = false

-- `add` of edges.
unfoldable pub add : ℕ → ℕ → Kind → Checker → Checker
add from to kind c =
    if from == to || any (λ e. e.0 == to && same_kind e.1 kind) (edges_of c from)
    then c
    else record c { adj = set c.adj from (edges_of c from ++ (to, kind) ∷ []) }

-- The edge between two transactions, where both are known.
abbrev pub add_between : Option ℕ → Option ℕ → Kind → Checker → Checker
add_between (some a) (some b) kind c = add a b kind c
add_between _ _ kind c = c

-- A version order: each element was appended right after the one before.
unfoldable pub add_order : String → List String → Checker → Checker
add_order k [] c = c
add_order k (v ∷ []) c = c
add_order k (v ∷ w ∷ vs) c =
    add_order k (w ∷ vs) (add_between (writer_of c k v) (writer_of c k w) write_write c)

unfoldable pub add_orders : List (String × List String) → Checker → Checker
add_orders [] c = c
add_orders ((k, order) ∷ rest) c = add_orders rest (add_order k order c)

-- The transactions that read a version of a key, and those that read its whole order.
pub record Readers : Type 0 where
  pub latest : List (String × List ℕ)
  pub readers : List (String × List ℕ)

-- A set of transactions under a key.
abbrev pub put_reader : String → ℕ → List (String × List ℕ) → List (String × List ℕ)
put_reader k i rs =
    let old = or_empty (find str_eq k rs) in
    put str_eq k (if any (◌==◌ i) old then old else old ++ i ∷ []) rs

abbrev writer_last : Checker → String → List String → Option ℕ
writer_last c k vs = elim (last vs) [ none ↦ none | some v ↦ writer_of c k v ]

-- Who appended the element of an order that comes right after a prefix of it.
abbrev writer_next : Checker → String → ℕ → Option ℕ
writer_next c k n = elim (get_elem? (order_of c k) n) [ none ↦ none | some v ↦ writer_of c k v ]

unfoldable pub add_read : ℕ → Mop → Checker → Readers → Checker × Readers
add_read i m c s =
    let c1 = add_between (writer_last c m.key m.read) (some i) write_read c in
    let order = order_of c1 m.key in
    let of_order = prefix_of m.read order in
    let s1 = if of_order then record s { readers = put_reader m.key i s.readers } else s in
    (
      if of_order && ltb (length m.read) (length order)
          then add_between (some i) (writer_next c1 m.key (length m.read)) read_write c1
          else c1,
      if same_list order m.read then record s1 { latest = put_reader m.key i s1.latest } else s1,
    )

unfoldable pub add_reads : ℕ → List Mop → Checker → Readers → Checker × Readers
add_reads i [] c s = (c, s)
add_reads i (m ∷ ms) c s = let (c', s') = add_read i m c s in add_reads i ms c' s'

unfoldable pub add_readers : ℕ → List Txn → Checker → Readers → Checker × Readers
add_readers i [] c s = (c, s)
add_readers i (t ∷ ts) c s =
    let (c', s') = if is_committed t.status then add_reads i (external t) c s else (c, s) in
    add_readers (suc i) ts c' s'

unfoldable pub add_anti : List ℕ → ℕ → Checker → Checker
add_anti [] i c = c
add_anti (reader ∷ readers) i c = add_anti readers i (add reader i read_write c)

-- `unread[k]` with the transaction, unless it is there last.
abbrev last_is : ℕ → List ℕ → Bool
last_is i us = elim (last us) [ none ↦ false | some u ↦ u == i ]

abbrev Unread : Type 0
Unread = List (String × List ℕ)

unfoldable pub add_unread :
    List (String × List ℕ) → ℕ → List Mop → Checker → Unread → Checker × Unread
add_unread latest i [] c unread = (c, unread)
add_unread latest i (m ∷ ms) c unread =
    let skip = not m.append || any (str_eq m.value) (order_of c m.key) in
    let c1 = add_between (writer_last c m.key (order_of c m.key)) (some i) write_write c in
    let seen_by = sort_stable ltb (or_empty (find str_eq m.key latest)) in
    let old = or_empty (find str_eq m.key unread) in
    add_unread latest i ms (if skip then c else add_anti seen_by i c1)
      (if skip || last_is i old then unread else put str_eq m.key (old ++ i ∷ []) unread)

unfoldable pub add_unreads :
    List (String × List ℕ) → ℕ → List Txn → Checker → Unread → Checker × Unread
add_unreads latest i [] c unread = (c, unread)
add_unreads latest i (t ∷ ts) c unread =
    let (c', unread') =
      if took_effect c i then add_unread latest i t.mops c unread else (c, unread) in
    add_unreads latest (suc i) ts c' unread'

-- The pairs of a list, each with those after it.
unfoldable pub pairs_of : String → List ℕ → List Pair
pairs_of k [] = []
pairs_of k (x ∷ xs) = map (λ y. record { a = x; b = y; key = k }) xs ++ pairs_of k xs

unfoldable pub add_pairs : List (String × List ℕ) → Unread → Checker → Checker
add_pairs readers [] c = c
add_pairs readers ((k, us) ∷ rest) c =
    let both = select (λ i. any (◌==◌ i) (or_empty (find str_eq k readers))) us in
    add_pairs readers rest (record c { pairs = c.pairs ++ pairs_of k both })

-- The transactions that began after one returned, and the first return among the committed ones,
-- from those found so far; there is none as long as `first` is negative.
unfoldable pub after_return : Checker → Txn → ℕ → List Txn → ℤ → List (ℕ × Txn) → ℤ × List (ℕ × Txn)
after_return c t j [] first next = (first, next)
after_return c t j (u ∷ us) first next =
    let later = ltb_ℤ t.returned u.call && took_effect c j in
    let sooner = is_committed u.status && (ltb_ℤ first (pos 0) || ltb_ℤ u.returned first) in
    after_return c t (suc j) us (if later && sooner then u.returned else first)
      (if later then next ++ (j, u) ∷ [] else next)

unfoldable pub link_next : ℕ → ℤ → List (ℕ × Txn) → Checker → Checker
link_next i first [] c = c
link_next i first ((j, u) ∷ rest) c =
    link_next i first rest
      (if ltb_ℤ first (pos 0) || not (ltb_ℤ first u.call) then add i j realtime c else c)

unfoldable pub add_realtime : ℕ → List Txn → Checker → Checker
add_realtime i [] c = c
add_realtime i (t ∷ ts) c =
    let (first, next) = after_return c t 0 c.txns (negsuc 0) [] in
    add_realtime (suc i) ts (if is_committed t.status then link_next i first next c else c)

unfoldable pub add_process : ℕ → List (ℤ × ℕ) → List Txn → Checker → Checker
add_process i latest [] c = c
add_process i latest (t ∷ ts) c =
    add_process (suc i) (put eqb_ℤ t.process i latest) ts
      (add_between (find eqb_ℤ t.process latest) (some i) process c)

unfoldable pub edges : Checker → Checker
edges c =
    let c1 = add_orders c.order c in
    let (c2, s) = add_readers 0 c1.txns c1 (record { latest = []; readers = [] }) in
    let (c3, unread) = add_unreads s.latest 0 c2.txns c2 [] in
    let c4 = add_pairs s.readers (sort_stable (λ a b. string_lt a.0 b.0) unread) c3 in
    let c5 = if c4.opts.realtime then add_realtime 0 c4.txns c4 else c4 in
    if c5.opts.process then add_process 0 [] c5.txns c5 else c5

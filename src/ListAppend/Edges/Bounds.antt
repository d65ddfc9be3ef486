-- ===== src/ListAppend/Edges/Bounds.antt =====
-- listappend/listappend.go: edges keeps a row for each transaction, and every edge that it adds leads
-- to a transaction.
use mathlib.Core.Option.{some-injective, none-ne-some}
use torx.Base.{
  ℕ, zero, suc, ◌+◌, ◌≡◌, ◌<◌, refl, subst, ap, ◌∙◌, inl, inr, String, List, [], ◌∷◌, Option, none,
  some, length, get_elem?, if_keeps, All, All-append, All-set, All-get, In, In-All, length-set,
  arith, Option-cases,
}
use torx.Base.Int.{ℤ}
use torx.ListAppend.Search.{Kind}
use torx.ListAppend.{
  Mop, Txn, Edge, Checker, or_empty, writer_of, edges_of, is_committed, same_name, took_effect,
  order_of,
}
use torx.ListAppend.Maps.{find-All}
use torx.ListAppend.Edges.{
  add, add_between, add_order, add_orders, Readers, add_read, add_reads, add_readers, add_anti,
  add_unread, add_unreads, add_pairs, after_return, link_next, add_realtime, add_process, edges,
  writer_last, writer_next,
}

-- Rows whose edges all lead below a bound.
abbrev pub Below : ℕ → List (List Edge) → Type 0
Below n = All (λ es. All (λ e. e.0 < n) es)

pub Below-edge :
    (n : ℕ) (adj : List (List Edge))
    → Below n adj
    → (x y : ℕ) (k : Kind) → In (y, k) (or_empty (get_elem? adj x))
    → y < n
Below-edge n [] h x y k i = elim i [ ]
Below-edge n (es ∷ adj) h zero y k i = In-All (λ e. e.0 < n) es (y, k) h.0 i
Below-edge n (es ∷ adj) h (suc x) y k i = Below-edge n adj h.1 x y k i

pub record Bounded (n : ℕ) (ts : List Txn) (c : Checker) : Type 0 where
  pub txns : c.txns ≡ ts
  pub rows : length c.adj ≡ n
  pub below : Below n c.adj
  pub writers : All (λ kv. kv.1 < n) c.writer

module _ (n : ℕ) (ts : List Txn) where
  abbrev Leads : Option ℕ → Type 0
  Leads o = (w : ℕ) → o ≡ some w → w < n

  edges_of-Below : (c : Checker) (v : ℕ) → Bounded n ts c → All (λ e. e.0 < n) (edges_of c v)
  edges_of-Below c v b = elim (Option-cases (get_elem? c.adj v)) [
    | inl e ↦ rw (edges_of, e) tt
    | inr (es, e) ↦ rw (edges_of, e) (All-get (λ es. All (λ e. e.0 < n) es) c.adj v b.below e)
  ]

  add-Bounded :
      (from to : ℕ) (kind : Kind) (c : Checker)
      → Bounded n ts c
      → to < n
      → Bounded n ts (add from to kind c)
  unfolding add
  add-Bounded from to kind c b lt = if_keeps (Bounded n ts) _ _ _ b (record {
    txns = b.txns;
    rows = length-set c.adj from _ ∙ b.rows;
    below =
        All-set (λ es. All (λ e. e.0 < n) es) c.adj from _ b.below
          (All-append (λ e. e.0 < n) (edges_of c from) ((to, kind) ∷ []) (edges_of-Below c from b)
            (lt, tt));
    writers = b.writers;
  })

  add_between-Bounded :
      (from to : Option ℕ) (kind : Kind) (c : Checker)
      → Bounded n ts c
      → Leads to
      → Bounded n ts (add_between from to kind c)
  add_between-Bounded (some a) (some w) kind c b lead = add-Bounded a w kind c b (lead w refl)
  add_between-Bounded none to kind c b lead = b
  add_between-Bounded (some a) none kind c b lead = b

  writer_of-Leads : (c : Checker) (k v : String) → Bounded n ts c → Leads (writer_of c k v)
  writer_of-Leads c k v b w e = find-All same_name (λ w. w < n) (k, v) c.writer w b.writers e

  add_order-Bounded :
      (k : String) (vs : List String) (c : Checker)
      → Bounded n ts c
      → Bounded n ts (add_order k vs c)
  unfolding add_order
  add_order-Bounded k [] c b = b
  add_order-Bounded k (v ∷ []) c b = b
  add_order-Bounded k (v ∷ w ∷ vs) c b =
      add_order-Bounded k (w ∷ vs) _
        (add_between-Bounded (writer_of c k v) (writer_of c k w) _ c b (writer_of-Leads c k w b))

  add_orders-Bounded :
      (os : List (String × List String)) (c : Checker)
      → Bounded n ts c
      → Bounded n ts (add_orders os c)
  unfolding add_orders
  add_orders-Bounded [] c b = b
  add_orders-Bounded ((k, order) ∷ rest) c b =
      add_orders-Bounded rest _ (add_order-Bounded k order c b)

  some-Leads : (i : ℕ) → i < n → Leads (some i)
  some-Leads i lt w e = subst (λ z. z < n) (some-injective i w e) lt

  writer_next-Leads :
      (c : Checker) (k : String) (m : ℕ) → Bounded n ts c → Leads (writer_next c k m)
  writer_next-Leads c k m b = elim (Option-cases (get_elem? (order_of c k) m)) [
    | inl o ↦ rw (writer_next, o) (λ w e. elim (none-ne-some w e) [ ])
    | inr (v, o) ↦ rw (writer_next, o) (writer_of-Leads c k v b)
  ]

  add_read-Bounded :
      (i : ℕ) (m : Mop) (c : Checker) (s : Readers)
      → i < n
      → Bounded n ts c
      → Bounded n ts (add_read i m c s).0
  unfolding add_read
  add_read-Bounded i m c s lt b =
      let b1 = add_between-Bounded (writer_last c m.key m.read) (some i) _ c b (some-Leads i lt) in
      if_keeps (Bounded n ts) _ _ _
        (add_between-Bounded (some i) _ _ _ b1 (writer_next-Leads _ m.key (length m.read) b1)) b1

  add_reads-Bounded :
      (i : ℕ) (ms : List Mop) (c : Checker) (s : Readers)
      → i < n
      → Bounded n ts c
      → Bounded n ts (add_reads i ms c s).0
  unfolding add_reads
  add_reads-Bounded i [] c s lt b = b
  add_reads-Bounded i (m ∷ ms) c s lt b =
      add_reads-Bounded i ms _ _ lt (add_read-Bounded i m c s lt b)

  add_readers-Bounded :
      (i : ℕ) (us : List Txn) (c : Checker) (s : Readers)
      → i + length us ≡ n
      → Bounded n ts c
      → Bounded n ts (add_readers i us c s).0
  unfolding add_readers
  add_readers-Bounded i [] c s size b = b
  add_readers-Bounded i (u ∷ us) c s size b =
      add_readers-Bounded (suc i) us _ _ (omega (arith, size)) (
        if_keeps (λ (x : Checker × Readers). Bounded n ts x.0) (is_committed u.status) _ _
          (add_reads-Bounded i _ c s (omega (arith, size)) b) b)

  add_anti-Bounded :
      (rs : List ℕ) (i : ℕ) (c : Checker) → i < n → Bounded n ts c → Bounded n ts (add_anti rs i c)
  unfolding add_anti
  add_anti-Bounded [] i c lt b = b
  add_anti-Bounded (r ∷ rs) i c lt b = add_anti-Bounded rs i _ lt (add-Bounded r i _ c b lt)

  add_unread-Bounded :
      (latest : List (String × List ℕ)) (i : ℕ) (ms : List Mop) (c : Checker)
      (unread : List (String × List ℕ))
      → i < n
      → Bounded n ts c
      → Bounded n ts (add_unread latest i ms c unread).0
  unfolding add_unread
  add_unread-Bounded latest i [] c unread lt b = b
  add_unread-Bounded latest i (m ∷ ms) c unread lt b = add_unread-Bounded latest i ms _ _ lt (
      if_keeps (Bounded n ts) _ _ _ b
        (add_anti-Bounded _ i _ lt (add_between-Bounded _ (some i) _ c b (some-Leads i lt))))

  add_unreads-Bounded :
      (latest : List (String × List ℕ)) (i : ℕ) (us : List Txn) (c : Checker)
      (unread : List (String × List ℕ))
      → i + length us ≡ n
      → Bounded n ts c
      → Bounded n ts (add_unreads latest i us c unread).0
  unfolding add_unreads
  add_unreads-Bounded latest i [] c unread size b = b
  add_unreads-Bounded latest i (u ∷ us) c unread size b =
      add_unreads-Bounded latest (suc i) us _ _ (omega (arith, size)) (
        if_keeps (λ (x : Checker × List (String × List ℕ)). Bounded n ts x.0) (took_effect c i) _ _
          (add_unread-Bounded latest i u.mops c unread (omega (arith, size)) b) b)

  add_pairs-Bounded :
      (readers unread : List (String × List ℕ)) (c : Checker)
      → Bounded n ts c
      → Bounded n ts (add_pairs readers unread c)
  unfolding add_pairs
  add_pairs-Bounded readers [] c b = b
  add_pairs-Bounded readers ((k, us) ∷ rest) c b =
      add_pairs-Bounded readers rest _
        (record { txns = b.txns; rows = b.rows; below = b.below; writers = b.writers })

  after_return-lt :
      (c : Checker) (t : Txn) (j : ℕ) (us : List Txn) (first : ℤ) (next : List (ℕ × Txn))
      → j + length us ≡ n
      → All (λ ju. ju.0 < n) next
      → All (λ ju. ju.0 < n) (after_return c t j us first next).1
  unfolding after_return
  after_return-lt c t j [] first next size h = h
  after_return-lt c t j (u ∷ us) first next size h =
      after_return-lt c t (suc j) us _ _ (omega (arith, size)) (
        if_keeps (All (λ ju. ju.0 < n)) _ _ _
          (All-append (λ ju. ju.0 < n) next ((j, u) ∷ []) h (omega (arith, size), tt)) h)

  link_next-Bounded :
      (i : ℕ) (first : ℤ) (next : List (ℕ × Txn)) (c : Checker)
      → All (λ ju. ju.0 < n) next
      → Bounded n ts c
      → Bounded n ts (link_next i first next c)
  unfolding link_next
  link_next-Bounded i first [] c h b = b
  link_next-Bounded i first ((j, u) ∷ rest) c h b =
      link_next-Bounded i first rest _ h.1
        (if_keeps (Bounded n ts) _ _ _ (add-Bounded i j _ c b h.0) b)

  add_realtime-Bounded :
      (i : ℕ) (us : List Txn) (c : Checker)
      → length ts ≡ n
      → Bounded n ts c
      → Bounded n ts (add_realtime i us c)
  unfolding add_realtime
  add_realtime-Bounded i [] c size b = b
  add_realtime-Bounded i (u ∷ us) c size b =
      let same = ap length b.txns in
      add_realtime-Bounded (suc i) us _ size (
        if_keeps (Bounded n ts) (is_committed u.status) _ _
          (link_next-Bounded i _ _ c
            (after_return-lt c u 0 c.txns _ [] (omega (arith, same, size)) tt) b)
          b)

  add_process-Bounded :
      (i : ℕ) (latest : List (ℤ × ℕ)) (us : List Txn) (c : Checker)
      → i + length us ≡ n
      → Bounded n ts c
      → Bounded n ts (add_process i latest us c)
  unfolding add_process
  add_process-Bounded i latest [] c size b = b
  add_process-Bounded i latest (u ∷ us) c size b =
      add_process-Bounded (suc i) _ us _ (omega (arith, size))
        (add_between-Bounded _ (some i) _ c b (some-Leads i (omega (arith, size))))

  pub edges-Bounded : (c : Checker) → length ts ≡ n → Bounded n ts c → Bounded n ts (edges c)
  unfolding edges
  edges-Bounded c size b =
      let of : (d : Checker) → Bounded n ts d → 0 + length d.txns ≡ n =
        (λ d bd. let same = ap length bd.txns in omega (arith, same, size)) in
      let b1 = add_orders-Bounded c.order c b in
      let b2 = add_readers-Bounded 0 _ _ _ (of _ b1) b1 in
      let b3 = add_unreads-Bounded _ 0 _ _ [] (of _ b2) b2 in
      let b4 = add_pairs-Bounded _ _ _ b3 in
      let b5 = if_keeps (Bounded n ts) _ _ _ (add_realtime-Bounded 0 _ _ size b4) b4 in
      if_keeps (Bounded n ts) _ _ _ (add_process-Bounded 0 [] _ _ (of _ b5) b5) b5

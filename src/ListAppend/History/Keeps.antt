-- ===== src/ListAppend/History/Keeps.antt =====
-- listappend/listappend.go: what internal, orders and effects keep, which only report or set the
-- version orders and what took effect.
use torx.Base.{
  inl, inr, String, List, [], ◌∷◌, Bool, any, length, if◌then◌else◌, if_keeps, str_eq, Option-cases,
  ltb, not,
}
use torx.Base.Int.{ℤ}
use torx.ListAppend.{
  Mop, Txn, Checker, Anomaly, report, writer_of, is_committed, status_of, is_unknown,
}
use torx.ListAppend.History.{
  Views, Reading, internal_mop, internal_mops, internals, report_twice, longest_of, report_orders,
  order_key, order_keys, orders, mark_took, mark_all, effects, prefix_of,
}

module _ (P : Checker → Type 0) (reported : (c : Checker) (a : Anomaly) → P c → P (report c a))
    (ordered : (c : Checker) (o : List (String × List String)) → P c → P (record c { order = o }))
    (marked : (c : Checker) (t : List Bool) → P c → P (record c { took = t })) where
  internal_mop-keeps :
      (t : Txn) (c : Checker) (s : Views) (m : Mop) → P c → P (internal_mop t c s m).0
  unfolding internal_mop
  internal_mop-keeps t c s m h =
      if_keeps (λ (x : Checker × Views). P x.0) _ _ _ h
        (if_keeps (λ (x : Checker × Views). P x.0) _ _ _ (reported c _ h)
          (if_keeps P _ _ _ (reported c _ h) h))

  internal_mops-keeps :
      (t : Txn) (c : Checker) (s : Views) (ms : List Mop) → P c → P (internal_mops t c s ms)
  unfolding internal_mops
  internal_mops-keeps t c s [] h = h
  internal_mops-keeps t c s (m ∷ ms) h =
      internal_mops-keeps t (internal_mop t c s m).0 (internal_mop t c s m).1 ms
        (internal_mop-keeps t c s m h)

  pub internals-keeps : (ts : List Txn) (c : Checker) → P c → P (internals ts c)
  unfolding internals
  internals-keeps [] c h = h
  internals-keeps (t ∷ ts) c h =
      internals-keeps ts _
        (if_keeps P (is_committed t.status) _ _ (internal_mops-keeps t c _ t.mops h) h)

  report_twice-keeps :
      (k : String) (id : ℤ) (seen vs : List String) (c : Checker)
      → P c
      → P (report_twice k id seen vs c)
  unfolding report_twice
  report_twice-keeps k id seen [] c h = h
  report_twice-keeps k id seen (v ∷ vs) c h =
      report_twice-keeps k id (v ∷ seen) vs _
        (if_keeps P (any (str_eq v) seen) _ _ (reported c _ h) h)

  longest_of-keeps :
      (k : String) (best : Reading) (rs : List Reading) (c : Checker)
      → P c
      → P (longest_of k best rs c).1
  unfolding longest_of
  longest_of-keeps k best [] c h = h
  longest_of-keeps k best (r ∷ rs) c h =
      longest_of-keeps k (if ltb (length best.0) (length r.0) then r else best) rs _
        (report_twice-keeps k r.1 [] r.0 c h)

  report_orders-keeps :
      (k : String) (longest : Reading) (rs : List Reading) (c : Checker)
      → P c
      → P (report_orders k longest rs c)
  unfolding report_orders
  report_orders-keeps k longest [] c h = h
  report_orders-keeps k longest (r ∷ rs) c h =
      report_orders-keeps k longest rs _
        (if_keeps P (not (prefix_of r.0 longest.0)) _ _ (reported c _ h) h)

  order_key-keeps : (k : String) (rs : List Reading) (c : Checker) → P c → P (order_key k rs c)
  unfolding order_key
  order_key-keeps k [] c h = h
  order_key-keeps k (r ∷ rs) c h =
      ordered _ _ (report_orders-keeps k _ (r ∷ rs) _ (longest_of-keeps k r (r ∷ rs) c h))

  order_keys-keeps : (rs : List (String × List Reading)) (c : Checker) → P c → P (order_keys rs c)
  unfolding order_keys
  order_keys-keeps [] c h = h
  order_keys-keeps ((k, rs) ∷ rest) c h = order_keys-keeps rest _ (order_key-keeps k rs c h)

  pub orders-keeps : (c : Checker) → P c → P (orders c)
  unfolding orders
  orders-keeps c h = order_keys-keeps _ c h

  mark_took-keeps : (k : String) (vs : List String) (c : Checker) → P c → P (mark_took k vs c)
  unfolding mark_took
  mark_took-keeps k [] c h = h
  mark_took-keeps k (v ∷ vs) c h = elim (Option-cases (writer_of c k v)) [
    | inl e ↦ rw (mark_took, e) (mark_took-keeps k vs c h)
    | inr (w, e) ↦
        rw (mark_took, e)
          (mark_took-keeps k vs _ (if_keeps P (is_unknown (status_of c w)) _ _ (marked c _ h) h))
  ]

  mark_all-keeps : (os : List (String × List String)) (c : Checker) → P c → P (mark_all os c)
  unfolding mark_all
  mark_all-keeps [] c h = h
  mark_all-keeps ((k, order) ∷ rest) c h = mark_all-keeps rest _ (mark_took-keeps k order c h)

  pub effects-keeps : (c : Checker) → P c → P (effects c)
  unfolding effects
  effects-keeps c h = mark_all-keeps c.order _ (marked c _ h)

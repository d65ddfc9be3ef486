-- ===== src/ListAppend/Reads/Keeps.antt =====
-- listappend/listappend.go: what reads keeps, which only reports.
use torx.Base.{ℕ, suc, inl, inr, String, List, [], ◌∷◌, if_keeps, Option-cases}
use torx.ListAppend.{
  Mop, Txn, Checker, Anomaly, report, writer_of, is_committed, status_of, is_aborted,
}
use torx.ListAppend.Reads.{
  Noted, check_elements, check_orders, check_intermediate, check_lost, check_read, check_mops,
  reads_from, reads, last_of_others,
}

module _ (P : Checker → Type 0)
    (reported : (c : Checker) (a : Anomaly) → P c → P (report c a)) where
  check_elements-keeps :
      (t : Txn) (key : String) (vs : List String) (c : Checker) (s : Noted)
      → P c
      → P (check_elements t key vs c s).0
  unfolding check_elements
  check_elements-keeps t key [] c s h = h
  check_elements-keeps t key (v ∷ vs) c s h = elim (Option-cases (writer_of c key v)) [
    | inl e ↦
        rw (check_elements, e)
          (check_elements-keeps t key vs _ _ (if_keeps P _ _ _ (reported c _ h) h))
    | inr (w, e) ↦
        rw (check_elements, e)
          (check_elements-keeps t key vs _ _
            (if_keeps P _ _ _ (if_keeps P (is_aborted (status_of c w)) _ _ (reported c _ h) h) h))
  ]

  check_orders-keeps :
      (t : Txn) (key : String) (got : List (ℕ × List String)) (c : Checker) (s : Noted)
      → P c
      → P (check_orders t key got c s).0
  unfolding check_orders
  check_orders-keeps t key [] c s h = h
  check_orders-keeps t key ((w, got) ∷ rest) c s h =
      check_orders-keeps t key rest _ _ (if_keeps P _ _ _ (reported c _ h) h)

  check_intermediate-keeps :
      (t : Txn) (i : ℕ) (key : String) (read : List String) (c : Checker) (s : Noted)
      → P c
      → P (check_intermediate t i key read c s).0
  unfolding check_intermediate
  check_intermediate-keeps t i key read c s h = elim (Option-cases (last_of_others c i key read)) [
    | inl e ↦ rw (check_intermediate, e) h
    | inr (v, e) ↦ elim (Option-cases (writer_of c key v)) [
      | inl e' ↦ rw (check_intermediate, e, e') h
      | inr (w, e') ↦
          rw (check_intermediate, e, e')
            (if_keeps (λ (x : Checker × Noted). P x.0) _ _ _ (reported c _ h) h)
    ]
  ]

  check_lost-keeps :
      (t : Txn) (i : ℕ) (m : Mop) (ws : List (String × ℕ)) (c : Checker) (s : Noted)
      → P c
      → P (check_lost t i m ws c s).0
  unfolding check_lost
  check_lost-keeps t i m [] c s h = h
  check_lost-keeps t i m ((v, w) ∷ rest) c s h =
      check_lost-keeps t i m rest _ _ (if_keeps P _ _ _ (reported c _ h) h)

  check_read-keeps :
      (t : Txn) (i : ℕ) (m : Mop) (c : Checker) (s : Noted) → P c → P (check_read t i m c s).0
  unfolding check_read
  check_read-keeps t i m c s h =
      let h1 = check_elements-keeps t m.key m.read c s h in
      let h2 = check_orders-keeps t m.key _ _ _ h1 in
      let h3 = check_intermediate-keeps t i m.key m.read _ _ h2 in
      if_keeps (λ (x : Checker × Noted). P x.0) _ _ _ (check_lost-keeps t i m _ _ _ h3) h3

  check_mops-keeps :
      (t : Txn) (i : ℕ) (ms : List Mop) (c : Checker) (s : Noted) → P c → P (check_mops t i ms c s)
  unfolding check_mops
  check_mops-keeps t i [] c s h = h
  check_mops-keeps t i (m ∷ ms) c s h =
      check_mops-keeps t i ms _ _
        (if_keeps (λ (x : Checker × Noted). P x.0) m.append _ _ h (check_read-keeps t i m c s h))

  reads_from-keeps : (i : ℕ) (ts : List Txn) (c : Checker) → P c → P (reads_from i ts c)
  unfolding reads_from
  reads_from-keeps i [] c h = h
  reads_from-keeps i (t ∷ ts) c h =
      reads_from-keeps (suc i) ts _
        (if_keeps P (is_committed t.status) _ _ (check_mops-keeps t i t.mops c _ h) h)

  pub reads-keeps : (c : Checker) → P c → P (reads c)
  unfolding reads
  reads-keeps c h = reads_from-keeps 0 c.txns c h

-- ===== src/ListAppend/Check/Serializable.antt =====
-- listappend/listappend.go: Check as a whole finds every cycle of the graph that its passes build.
use torx.Base.{
  ℕ, zero, suc, ◌≢◌, refl, sym, ap, ◌∙◌, List, [], length, replicate, length-replicate, In, arith,
}
use torx.ListAppend.{Txn, Options, Checker, edges_of}
use torx.ListAppend.Search.{Kind}
use torx.ListAppend.Search.Graph.{Walk}
use torx.ListAppend.History.Keeps.{internals-keeps, orders-keeps, effects-keeps}
use torx.ListAppend.History.Writers.{Writes, appends-Writes}
use torx.ListAppend.Reads.Keeps.{reads-keeps}
use torx.ListAppend.Edges.Bounds.{Bounded, Below, Below-edge, edges-Bounded}
use torx.ListAppend.Cycles.Every.{Sized, Unserializable, cycles_find_any}
use torx.ListAppend.Check.{new_checker, graph, check}

module _ (ts : List Txn) (opts : Options) where
  no_rows : (m n : ℕ) → Below n (replicate m [])
  no_rows zero n = tt
  no_rows (suc m) n = (tt, no_rows m n)

  graph-Bounded : Bounded (length ts) ts (graph ts opts)
  unfolding graph
  graph-Bounded =
      let P : Checker → Type 0 = Writes (length ts) ts in
      let h1 = appends-Writes (length ts) ts (new_checker ts opts) (omega arith) (refl, tt) in
      let h2 = internals-keeps P (λ c a h. h) (λ c o h. h) (λ c t h. h) ts _ h1 in
      let h3 = orders-keeps P (λ c a h. h) (λ c o h. h) (λ c t h. h) _ h2 in
      let h4 = effects-keeps P (λ c a h. h) (λ c o h. h) (λ c t h. h) _ h3 in
      let h5 = reads-keeps P (λ c a h. h) _ h4 in
      edges-Bounded (length ts) ts _ refl (record {
        txns = h5.0;
        rows = length-replicate (length ts) [];
        below = no_rows (length ts) (length ts);
        writers = h5.1;
      })

  graph-Sized : Sized (graph ts opts)
  graph-Sized =
      let b = graph-Bounded in
      let same = ap length b.txns in
      record {
        rows = b.rows ∙ sym same;
        bound = λ x y k i.
            let lt = Below-edge (length ts) (graph ts opts).adj b.below x y k i in
            omega (arith, lt, same);
      }

  -- Whatever the history and the options, if the graph of dependencies that Check builds has a cycle
  -- of two transactions or more, then Check reports an anomaly that serializability forbids.
  pub check_finds_cycles :
      (v w : ℕ) (vs : List ℕ) (ks : List Kind)
      → Walk (edges_of (graph ts opts)) v vs ks v
      → In w vs
      → v ≢ w
      → Unserializable (check ts opts)
  unfolding check
  check_finds_cycles v w vs ks walk i other =
      cycles_find_any (graph ts opts) graph-Sized v w vs ks walk i other

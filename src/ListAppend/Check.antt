-- ===== src/ListAppend/Check.antt =====
-- listappend/listappend.go: Check, which runs the passes one after the other.
pub mod Serializable
use torx.Base.{List, [], length, replicate}
use torx.ListAppend.{Txn, Options, Anomaly, Checker}
use torx.ListAppend.History.{appends, internals, orders, effects}
use torx.ListAppend.Reads.{reads}
use torx.ListAppend.Edges.{edges}
use torx.ListAppend.Cycles.{cycles}

-- The checker before the passes.
abbrev pub new_checker : List Txn → Options → Checker
new_checker txns opts = record {
  txns = txns;
  opts = opts;
  writer = [];
  appended = [];
  order = [];
  took = [];
  adj = [];
  pairs = [];
  out = [];
}

-- The passes up to the graph.
unfoldable pub graph : List Txn → Options → Checker
graph txns opts =
    let c1 = appends (new_checker txns opts) in
    let c2 = reads (effects (orders (internals txns c1))) in
    edges (record c2 { adj = replicate (length txns) [] })

unfoldable pub check : List Txn → Options → List Anomaly
check txns opts = (cycles (graph txns opts)).out

-- ===== src/Tests/Histories.antt =====
-- listappend/listappend.go: tests and witnesses.
use torx.Base.{
  ◌≢◌, arith, ℕ, ◌≡◌, refl, String, List, [], ◌∷◌, true, false, inl, ◌++◌, ◌⊎◌, All, In,
}
use torx.Base.Int.{pos}
use torx.ListAppend.Search.{write_write, write_read, read_write}
use torx.ListAppend.{
  Mop, Txn, Options, Anomaly, Checker, Edge, edges_of, same_list, committed, g0, g1c, g_single,
}
use torx.Base.Sort.{sort_stable, insert_sorted}
use torx.ListAppend.History.{
  note_append, note_appends, appends_from, appends, internal_mop, internal_mops, internals,
  external_from, external, readings_of, readings, report_twice, longest_of, report_orders,
  order_key, order_keys, orders, mark_took, mark_all, effects,
}
use torx.ListAppend.Reads.{
  check_elements, theirs, check_orders, last_of_others, check_intermediate, writers_of, check_lost,
  check_read, check_mops, reads_from, reads,
}
use torx.ListAppend.Edges.{
  add, add_order, add_orders, add_read, add_reads, add_readers, add_anti, add_unread, add_unreads,
  pairs_of, add_pairs, after_return, link_next, add_realtime, add_process, edges,
}
use torx.ListAppend.Check.{check, graph}
use torx.ListAppend.Check.Serializable.{check_finds_cycles}
use torx.ListAppend.Sccs.{sccs}
use torx.ListAppend.Cycles.{cycles, all_kinds}
use torx.ListAppend.Cycles.Reported.{Shown, cycles-Shown}
use torx.ListAppend.Sccs.Unparted.{sccs_cycle}
use torx.ListAppend.Cycles.Unmissed.{Reports}
use torx.ListAppend.Edges.Bounds.{Below-edge}
use torx.ListAppend.Cycles.Every.{
  Sized, Unserializable, cycles_find_g0, cycles_find_g1c, cycles_find_g_single, cycles_find_any,
}

abbrev appends_to : String → String → Mop
appends_to key value = record { append = true; key = key; value = value; read = [] }

abbrev reads_of : String → List String → Mop
reads_of key read = record { append = false; key = key; value = ""; read = read }

abbrev txn : ℕ → List Mop → Txn
txn id mops = record {
  id = pos id;
  process = pos id;
  call = pos 0;
  returned = pos 1;
  status = committed;
  mops = mops;
}

abbrev plain : Options
plain = record { realtime = false; process = false }

-- Two transactions of which each reads the key that the other appends to.
abbrev write_skew : List Txn
write_skew =
    txn 1 (reads_of "x" [] ∷ appends_to "y" "1" ∷ [])
    ∷ txn 2 (reads_of "y" [] ∷ appends_to "x" "1" ∷ [])
    ∷ txn 3 (reads_of "x" ("1" ∷ []) ∷ reads_of "y" ("1" ∷ []) ∷ [])
    ∷ []

-- The second read sees the first's append, and its own append is overwritten by the first.
abbrev circular : List Txn
circular =
    txn 1 (appends_to "x" "1" ∷ reads_of "y" ("1" ∷ []) ∷ [])
    ∷ txn 2 (appends_to "y" "1" ∷ reads_of "x" ("1" ∷ []) ∷ [])
    ∷ []

cycles-Shown_example :
    let c = graph write_skew plain in
    (added : List Anomaly) × ((cycles c).out ≡ c.out ++ added) × All (Shown c) added
cycles-Shown_example = cycles-Shown (graph write_skew plain)

-- The graphs of three transactions: two ww edges make a cycle, and two with a wr edge and an rw
-- edge.
abbrev graph_of : List (List Edge) → Checker
graph_of adj = record {
  txns = circular;
  opts = plain;
  writer = [];
  appended = [];
  order = [];
  took = [];
  adj = adj;
  pairs = [];
  out = [];
}

abbrev overwritten : Checker
overwritten = graph_of (((1, write_write) ∷ []) ∷ ((0, write_write) ∷ []) ∷ [])

abbrev circle : Checker
circle = graph_of (((1, write_read) ∷ []) ∷ ((0, write_read) ∷ []) ∷ [])

abbrev skewed : Checker
skewed = graph_of (((1, read_write) ∷ []) ∷ ((0, write_read) ∷ []) ∷ [])

overwritten-Sized : Sized overwritten
overwritten-Sized = record {
  rows = refl;
  bound = Below-edge 2 overwritten.adj ((omega arith, tt), ((omega arith, tt), tt));
}

circle-Sized : Sized circle
circle-Sized = record {
  rows = refl;
  bound = Below-edge 2 circle.adj ((omega arith, tt), ((omega arith, tt), tt));
}

skewed-Sized : Sized skewed
skewed-Sized = record {
  rows = refl;
  bound = Below-edge 2 skewed.adj ((omega arith, tt), ((omega arith, tt), tt));
}

apart_by_one : ◌≢◌ {A = ℕ} 0 1
apart_by_one = omega arith

cycles_find_g0_example : Reports overwritten (cycles overwritten) g0
cycles_find_g0_example =
    cycles_find_g0 overwritten overwritten-Sized 0 1 (1 ∷ []) (write_write ∷ write_write ∷ [])
      (inl refl, (inl refl, refl)) (refl, (refl, tt)) (inl refl) apart_by_one

cycles_find_g1c_example : Reports circle (cycles circle) g0 ⊎ Reports circle (cycles circle) g1c
cycles_find_g1c_example =
    cycles_find_g1c circle circle-Sized 0 1 (1 ∷ []) (write_read ∷ write_read ∷ [])
      (inl refl, (inl refl, refl)) (refl, (refl, tt)) (inl refl) apart_by_one

cycles_find_g_single_example : Reports skewed (cycles skewed) g_single
cycles_find_g_single_example =
    cycles_find_g_single skewed skewed-Sized 0 1 [] (write_read ∷ []) (inl refl) (inl refl, refl)
      (refl, tt) apart_by_one

-- The graph of the write skew.
skewed_reads :
    In (1, read_write) (edges_of (graph write_skew plain) 0)
    × In (0, read_write) (edges_of (graph write_skew plain) 1)
unfolding graph same_list sort_stable insert_sorted note_append note_appends appends_from appends
    internal_mop internal_mops internals external_from external readings_of readings report_twice
    longest_of report_orders order_key order_keys orders mark_took mark_all effects check_elements
    theirs check_orders last_of_others check_intermediate writers_of check_lost check_read
    check_mops reads_from reads add_order add_orders add_read add_reads add_readers add_anti
    add_unread add_unreads pairs_of add_pairs after_return link_next add_realtime add_process edges
    add
skewed_reads = (inl refl, inl refl)

check_finds_cycles_example : Unserializable (check write_skew plain)
check_finds_cycles_example =
    check_finds_cycles write_skew plain 0 1 (1 ∷ []) (read_write ∷ read_write ∷ [])
      (skewed_reads.0, (skewed_reads.1, refl)) (inl refl) apart_by_one

cycles_find_any_example : Unserializable (cycles skewed).out
cycles_find_any_example =
    cycles_find_any skewed skewed-Sized 0 1 (1 ∷ []) (read_write ∷ write_read ∷ [])
      (inl refl, (inl refl, refl)) (inl refl) apart_by_one

sccs_cycle_example :
    (comp : List ℕ) × In comp (sccs skewed all_kinds) × In 0 comp × All (λ u. In u comp) (1 ∷ [])
sccs_cycle_example =
    sccs_cycle skewed all_kinds skewed-Sized.bound refl 0 1 (1 ∷ []) (read_write ∷ write_read ∷ [])
      (inl refl, (inl refl, refl)) (refl, (refl, tt)) (inl refl) apart_by_one

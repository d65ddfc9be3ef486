-- ===== src/Lib.antt =====
-- torx runs integration tests of distributed systems: a session owns a pool of nodes, a job asks
-- for some by specs, services take ports on them, a nemesis injects faults meanwhile, and the
-- history that clients saw is checked for a linearization.
--
-- The files, and the code that each is about:
--   Errors      errors.go: the categories, Wrap, MultiError; Errors.Discovery has what errors.Is
--               finds in them.
--   Spec, Node  spec.go and node.go: what a job asks for, what a node offers, and Node.Addr.
--   Pool        pool.go. Pool.Match is matchSpecs, augmentSpec, constraintOrder and specScore; its
--               children follow one search (Search, Outcome), say why a search that fails leaves
--               no assignment (Hall), and follow the rounds (Rounds, Correct). Pool.Sessions is a
--               pool under a sequence of calls, with the sub-pools that it has handed out;
--               Pool.Count, Pool.Ops and Pool.Invariant carry its invariant, Pool.Guarantees what
--               a session relies on.
--   Ports       coordination.go: PortAllocator (Ports.Leases).
--   Timeline    linearize/timeline.go: where operations with timestamps are placed.
--   Nemesis     nemesis/nemesis.go: Run over rounds that the environment decides, the draws of
--               pick and between and the sleep of a hold (Picking), Holds (Holding), and Windows
--               (Windows, Pairing, Closing).
--   Linearize   linearize/linearize.go: link, lift and the data. Linearize.Search is the loop of
--               CheckWithin, one pass at a time; History says what a linearization is, Sound and
--               Verdict follow the calls placed, and Ends bounds the passes.
--   ListAppend  listappend/listappend.go: the data of Check. History has the passes over the
--               transactions, Reads what each read saw, Edges the graph of dependencies, Sccs its
--               components, Cycles the cycles in them, Check the whole. ListAppend.Search is the
--               breadth-first search of path and of nonadjacent: Walks follows the walk back, Loop
--               what is found, Complete and Correct what is not missed. Sccs.Calls, Visits, Rounds,
--               Taken and Closing carry the invariant of Tarjan's loop, Work its measure, Layers
--               what the invariant says of cycles, Correct and Unparted the loop as a whole.
--               Cycles.Sound, Spaced and Reported are about what is reported, Complete, Unmissed
--               and Every about what is not left out. Keeps, Writers and Edges.Bounds follow what
--               the passes keep, and Check.Serializable joins them for Check.
--   Minimize    linearize/linearize.go: ddmin, the loops that Minimize shrinks a history with.
--   Params      params.go and Matrix of discovery.go: how many parameter sets a matrix or an
--               override has, and which (Points, Expansion); the parsing of a params file (Strict).
--   Discovery   discovery.go: from the registered jobs to the requests (Selection).
--   Driver      driver.go: Run and runOne as events over a pool; where the requests are (Counts),
--               what stops it (Stopping), the nodes of jobs (Handles, Nodes, Quarantine, Granted)
--               and what lets a run end (Progress).
--   Suite       result.go: when a run counts as passed.
--   Base        numbers, lists, int64 and float64 values, a stable sort. Tests has the runs on
--               small inputs.
--
-- A node is its pointer, so nodes are told apart by `id`. A mutex makes each method one step.
-- Go maps are lists of their keys, in the order in which they were put, or functions. An int64 is
-- an integer, and where the code could overflow (Timeline) the range is written out. The operating system, the random source and the
-- clock are parameters: the port that a probe finds, the draws of a nemesis, the end of a context,
-- the equality and the hash of configurations in the cache of the search, the text encoding of JSON,
-- and the matching of patterns.
--
-- Fuel: augmentSpec calls itself once for each candidate at most, since each call marks one more as
-- seen, and takes the number of candidates and one more. The loop of CheckWithin takes any fuel
-- above `cost` of the number of entries: a pass goes one entry on, or places a call and takes its
-- entries out, or goes back to the list before. The inner loop of ddmin takes the size of the set
-- and one more, the outer loop the size and that of a chunk, since each round has a smaller chunk
-- or a smaller set. A search in a component takes the number of its vertices, or of its states, and
-- one more: each is queued once. Tarjan's loop takes one for each vertex and edge.
--
-- Not modelled: jobs, services, workers and their protocol, the checker of
-- logcheck/, the rest of Minimize and Partition of linearize/, and objstore/; and
-- what only calls the system: the local and SSH backends, control groups, network namespaces and
-- the fault packages.
pub mod Base
pub mod Errors
pub mod Spec
pub mod Node
pub mod Pool
pub mod Ports
pub mod Timeline
pub mod Nemesis
pub mod Linearize
pub mod ListAppend
pub mod Params
pub mod Minimize
pub mod Suite
pub mod Discovery
pub mod Driver
pub mod Tests

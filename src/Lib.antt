-- ===== src/Lib.antt =====
-- ContinuityOS, the decision core of src/continuityos: who may do what, which corridors are open,
-- whether what was observed meets what was declared, how long a recovery takes, and which messages
-- and requests have been seen before.
--
-- The parts and their files:
--
--   Rbac             src/continuityos/rbac.py: roles, permissions, `evaluate_access`
--   PersistentState  src/continuityos/state.py: the JSON state file and the methods on it
--   Closure          src/continuityos/closure.py: the five layers, the effective and composite state
--   Policy           src/continuityos/policy.py: rules, `_check_rule`, `evaluate_policy`
--   Reconcile        src/continuityos/reconcile.py: declared against observed state
--   Recovery         src/continuityos/recovery.py: `model_recovery`
--   Security         src/continuityos/security.py: the API key check and the rate limiter, with the
--                    settings of src/continuityos/config.py that they read
--   Evidence         src/continuityos/evidence.py: the hash-chained ledger, its appends and its checks
--   Inventory        src/continuityos/inventory.py: `simulate_inventory`
--   Graph            src/continuityos/graph.py: the dependency graph, its validation and, in
--                    Graph/Paths, `find_alternative_paths`
--   Independence     src/continuityos/independence.py: `get_upstream_dependencies` and, in
--                    Independence/Category and Independence/Groups, `analyze_category`
--   Service          src/continuityos/service.py: the two telemetry routes, over PersistentState and Evidence
--   Sovereign        src/continuityos/sovereign.py: `is_authorized` of a label, `filter_payload`
--   Readiness        src/continuityos/readiness.py: `evaluate_readiness`, over the states of Domain and the
--                    results of Reconcile
--   MicroProto       src/continuityos/embedded.py: `CompactBinaryProtocolCodec`, over Struct
--   SnapshotCache    src/continuityos/sources/cache.py: `SnapshotCache`
--   Struct           Python's `struct`: packing and unpacking of little-endian integers
--   Compiler         src/continuityos/compiler.py: the exact search for a plan
--   Cluster          src/continuityos/cluster.py: the replicated log of a node
--   Domain           src/continuityos/domain.py: enumerations and a position that parts share
--   Float            Python's float, as an interface, and an instance of it for the examples
--   Prelude          names and lemmas that all parts share
--
-- The HTTP service (src/continuityos/service.py) puts `require_api_key` and `enforce_rate_limit` before
-- its routes. A route that must run once looks its key up with `get_idempotent` and saves its response
-- with `save_idempotent`; a telemetry route takes a message on only if
-- `claim_sequence` answers true, and then appends it to the ledger; and what it stores with `set_value`
-- is in the namespaces `strategic` and `strategic_alerts`, apart from both. The other parts are pure
-- functions that a route calls, and the log of cluster.py is changed by its own methods only. The parts
-- share no state but the state file and the ledger's file.
--
-- A part's definitions are in the file of its name (the compiler's projected risk and its inputs in
-- Compiler/Risk and Compiler/Actions, the closure's layers in Closure/Layers), its theorems in the files
-- below it, by what they are about, and runs on concrete data in its Examples.
--
-- How the code corresponds: a function or method has its own name here, a pydantic model is a record
-- with the model's field names, an enumeration is a data type, and a class that mutates itself is a
-- record that a method takes and returns. A method that raises returns an error value.
--
-- What stands for what:
--
--   * A float is a value of a type with the operations that the code applies to it (`Float`). No
--     theorem assumes that its arithmetic is exact; those that compare numbers take the laws of the
--     order (`IsOrdered`) as a hypothesis, which holds for numbers and fails for NaN only, and one takes
--     that the sum of no floats is zero.
--   * A frame is a list of numbers below 256, and a Python integer an integer without bounds, which
--     `struct.pack` refuses where it does not fit its code.
--   * The cache's files are a list of locations with their bytes. A write by `os.replace` happens or does
--     not; a process may stop between the two writes of a `store`.
--   * A reading of the limiter's clock is a float. It is read before the lock is taken, so the readings of
--     the checks in a run may come in any order.
--   * The state file is what `json.loads` makes of it: absent, not UTF-8, undecodable, or a JSON value. How
--     far the disk lets a write get, before its `os.replace`, past it without the directory's sync, or to
--     its end, is an argument of every call that writes. The file lock is held from a method's read to
--     its write, so a run is a list of whole calls.
--   * The ledger's file is the list of its bytes, or absent. Pydantic's JSON form of a record, its
--     reader, the digest of the canonical form and the keys are parameters; a theorem that needs that
--     a record's bytes are read back says so.
--   * `hmac.compare_digest`, `hashlib.sha256`, the builtin `int` on a JSON value and the serialisation
--     of a payload are parameters.
--   * A dictionary is a list of pairs in insertion order, and a set is a list that is only asked for
--     membership or emptiness.
--   * A text that reports numbers is a constructor with those numbers. Random identifiers and time
--     stamps are left out, or are arguments where a stored record holds them, or part of a message;
--     summaries are left out.
--
-- Four definitions count their rounds; every other loop runs over a list. The search for the last hash of
-- a ledger (`scan_back`) has as many rounds as the file has bytes, and each round but the last lowers the
-- position by at least one, so the rounds are never what ends it. The recursion over a dependency graph
-- (`visit_upstream`) has a depth of two more than the edges, and returns no result beyond it. The
-- search for paths (`walk_stack`) takes its number of rounds as an argument, of which a theorem gives one
-- that is enough. `find` of the union-find structure has a depth of one more than the unions, each of
-- which makes a chain longer by one at most, and fails beyond it.
--
-- Not modelled: validation by pydantic, which is that library's; the HTTP routes but those of
-- Service, the command line and the demonstrations, which are glue; cryptography, databases and network
-- clients, which call other packages; and the analytical models that are arithmetic on floats alone. Of
-- evidence.py the report of conflicts and the reading of key files, of graph.py the propagation of
-- failures and the search for cycles, of independence.py the texts and the discovery of categories, of
-- sovereign.py the banner and the audits, and of embedded.py the memory maps and the generated C header are left out.
pub mod Closure
pub mod Cluster
pub mod Compiler
pub mod Domain
pub mod Evidence
pub mod Float
pub mod Graph
pub mod Independence
pub mod Inventory
pub mod MicroProto
pub mod PersistentState
pub mod Policy
pub mod Prelude
pub mod Rbac
pub mod Readiness
pub mod Reconcile
pub mod Recovery
pub mod Security
pub mod Service
pub mod SnapshotCache
pub mod Sovereign
pub mod Struct

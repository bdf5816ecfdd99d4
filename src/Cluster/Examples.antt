-- ===== src/Cluster/Examples.antt =====
-- A node of cluster.py with one peer and two commands. The digests are stand-ins that the examples
-- can compute.
use continuityos.Prelude.{
  ℕ, ◌≤◌, ◌<◌, String, str_append, List, [], ◌∷◌, ◌++◌, true, ◌≡◌, length, All,
}
use continuityos.Float.Micro.{micro}
use continuityos.Cluster.{
  new_synchronizer, sync_with_peer, entries_after, LogEntry, RaftStateSynchronizer,
}
use continuityos.Cluster.Log.{
  Operation, append, register, sync, run, IsWellFormed, run-IsWellFormed,
}

abbrev hex : String → String
hex s = str_append "h" s

abbrev operations : List (Operation ℕ String)
operations =
    append "open" "north"
    ∷ register "p1" "harbour" true 256000000
    ∷ append "close" "south"
    ∷ sync "p1" 0
    ∷ []

abbrev node_now : RaftStateSynchronizer ℕ String
node_now = run hex hex operations (new_synchronizer "n1" "base")

run-IsWellFormed_example :
    IsWellFormed node_now
    × ((before : List LogEntry) × (node_now.log ≡ before ++ entries_after 1 node_now.log)
        × All (λ e. e.index ≤ 1) before
        × All (λ e. 1 < e.index) (entries_after 1 node_now.log))
    × ((sync_with_peer hex hex "p1" 1 node_now).1.entries_replicated
        ≡ length (entries_after 1 node_now.log))
run-IsWellFormed_example = run-IsWellFormed hex hex operations "n1" "base" "p1" 1

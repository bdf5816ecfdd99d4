-- ===== src/Cluster.antt =====
-- cluster.py: the replicated log of a node, in memory. Time stamps and the random identifier of a
-- synchronisation are left out. A payload is of any type: the digest of its serialisation, and of
-- the joined digests, are parameters. The key f"{command_type}:{index}" of the state store is the
-- pair of its parts, which the last colon of the text tells apart. The proofs are in the modules
-- below.
mod Log
mod Examples
use continuityos.Prelude.{
  ℕ, suc, String, str_append, str_eq, List, [], ◌∷◌, ◌++◌, Bool, true, false, leb, ltb, length,
  if◌then◌else◌,
}
use continuityos.Float.{Float, dec}

pub data ClusterNodeRole : Type 0 where
  leader follower candidate isolated_scif : ClusterNodeRole

pub record LogEntry : Type 0 where
  pub index : ℕ
  pub term : ℕ
  pub command_type : String
  pub payload_hash : String

pub record ScifNodeState (F : Type 0) : Type 0 where
  pub node_id : String
  pub enclave_name : String
  pub role : ClusterNodeRole
  pub current_term : ℕ
  pub last_log_index : ℕ
  pub last_log_term : ℕ
  pub merkle_state_root_hex : String
  pub peers_connected_count : ℕ
  pub bandwidth_kbps : F
  pub is_air_gapped : Bool

pub record ClusterSyncResult (F : Type 0) : Type 0 where
  pub initiator_node_id : String
  pub peer_node_id : String
  pub entries_replicated : ℕ
  pub conflict_resolved : Bool
  pub state_merkle_root : String
  pub consensus_score : F
  pub sync_status : String

pub record RaftStateSynchronizer (F P : Type 0) : Type 0 where
  pub node_id : String
  pub enclave_name : String
  pub current_term : ℕ
  pub role : ClusterNodeRole
  pub log : List LogEntry
  pub peers : List (String × ScifNodeState F)
  pub state_store : List ((String × ℕ) × P)

abbrev pub new_synchronizer : {F P : Type 0} → String → String → RaftStateSynchronizer F P
new_synchronizer node_id enclave_name = record {
  node_id = node_id;
  enclave_name = enclave_name;
  current_term = 1;
  role = leader;
  log = [];
  peers = [];
  state_store = [];
}

-- self.peers[peer_id] = peer, in place or as a new entry
unfoldable pub put_peer :
    {F : Type 0}
    → String
    → ScifNodeState F
    → List (String × ScifNodeState F)
    → List (String × ScifNodeState F)
put_peer peer_id peer [] = (peer_id, peer) ∷ []
put_peer peer_id peer ((k, old) ∷ rest) =
    if str_eq k peer_id then (k, peer) ∷ rest else (k, old) ∷ put_peer peer_id peer rest

-- The update of a peer that is known; an unknown one stays so.
unfoldable pub advance_peer :
    {F : Type 0} → String → ℕ → List (String × ScifNodeState F) → List (String × ScifNodeState F)
advance_peer peer_id position [] = []
advance_peer peer_id position ((k, peer) ∷ rest) =
    if str_eq k peer_id
    then (k, record peer { last_log_index = position }) ∷ rest
    else (k, peer) ∷ advance_peer peer_id position rest

-- [e for e in self.log if e.index > peer_log_index]
unfoldable pub entries_after : ℕ → List LogEntry → List LogEntry
entries_after position [] = []
entries_after position (e ∷ es) =
    let rest = entries_after position es in if ltb position e.index then e ∷ rest else rest

unfoldable pub joined_hashes : List LogEntry → String
joined_hashes [] = ""
joined_hashes (e ∷ es) = str_append e.payload_hash (joined_hashes es)

module _ {F P : Type 0} ⦃fl : Float F⦄ (sha256_hex : String → String) (digest : P → String) where
  unfoldable pub compute_merkle_root : RaftStateSynchronizer F P → String
  unfolding joined_hashes
  compute_merkle_root node = elim node.log [
    | [] ↦ sha256_hex "GENESIS_EMPTY_CLUSTER"
    | e ∷ es ↦ sha256_hex (joined_hashes (e ∷ es))
  ]

  abbrev pub new_entry : String → P → RaftStateSynchronizer F P → LogEntry
  new_entry command_type payload node = record {
    index = suc (length node.log);
    term = node.current_term;
    command_type = command_type;
    payload_hash = digest payload;
  }

  -- No key of the store has the new entry's index yet.
  unfoldable pub append_command :
      String → P → RaftStateSynchronizer F P → RaftStateSynchronizer F P × LogEntry
  append_command command_type payload node = (
    record node {
      log = node.log ++ new_entry command_type payload node ∷ [];
      state_store = node.state_store ++ ((command_type, suc (length node.log)), payload) ∷ [];
    },
    new_entry command_type payload node,
  )

  abbrev pub new_peer : String → String → Bool → F → RaftStateSynchronizer F P → ScifNodeState F
  new_peer peer_id enclave_name is_air_gapped bandwidth_kbps node = record {
    node_id = peer_id;
    enclave_name = enclave_name;
    role = follower;
    current_term = node.current_term;
    last_log_index = 0;
    last_log_term = 0;
    merkle_state_root_hex = compute_merkle_root node;
    peers_connected_count = 1;
    bandwidth_kbps = bandwidth_kbps;
    is_air_gapped = is_air_gapped;
  }

  unfoldable pub register_peer :
      String → String → Bool → F → RaftStateSynchronizer F P → RaftStateSynchronizer F P
  unfolding put_peer
  register_peer peer_id enclave_name is_air_gapped bandwidth_kbps node = record node {
    peers =
        put_peer peer_id (new_peer peer_id enclave_name is_air_gapped bandwidth_kbps node)
          node.peers;
  }

  -- The node once the peer is recorded at the end of the log.
  abbrev pub synced_node : String → RaftStateSynchronizer F P → RaftStateSynchronizer F P
  synced_node peer_id node = record node {
    peers = advance_peer peer_id (length node.log) node.peers;
  }

  unfoldable pub sync_with_peer :
      String → ℕ → RaftStateSynchronizer F P → RaftStateSynchronizer F P × ClusterSyncResult F
  unfolding entries_after advance_peer
  sync_with_peer peer_id peer_log_index node =
      let entries_to_send = entries_after peer_log_index node.log in
      (
        synced_node peer_id node,
        record {
          initiator_node_id = node.node_id;
          peer_node_id = peer_id;
          entries_replicated = length entries_to_send;
          conflict_resolved = false;
          state_merkle_root = compute_merkle_root (synced_node peer_id node);
          consensus_score = if leb 0 (length entries_to_send) then dec 1 0 else dec 5 1;
          sync_status = "SYNCHRONIZED_NOMINAL";
        },
      )

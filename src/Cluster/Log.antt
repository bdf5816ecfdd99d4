-- ===== src/Cluster/Log.antt =====
-- The log of cluster.py through appends, registrations and synchronisations.
use continuityos.Prelude.{
  str_append, sym, ap, ◌∙◌, inr, length-append, All-map, inl, str_eq, Bool-cases, ℕ, suc, ◌+◌, ltb,
  ltb→lt, ◌<◌, ◌≤◌, String, List, [], ◌∷◌, ◌++◌, Bool, ◌≡◌, refl, arith, All, length,
}
use continuityos.Cluster.{
  compute_merkle_root, joined_hashes, new_entry, new_synchronizer, register_peer, append_command,
  sync_with_peer, Float, ScifNodeState, advance_peer, put_peer, LogEntry, RaftStateSynchronizer,
  entries_after,
}

-- The entries carry the indices from `n` on, without a gap.
abbrev pub Indexed : ℕ → List LogEntry → Type 0
Indexed n [] = Unit
Indexed n (e ∷ es) = (e.index ≡ n) × Indexed (suc n) es

-- No peer is recorded beyond the end of the log.
abbrev pub IsWellFormed : {F P : Type 0} → RaftStateSynchronizer F P → Type 0
IsWellFormed node = Indexed 1 node.log × All (λ p. p.1.last_log_index ≤ length node.log) node.peers

pub data Operation (F P : Type 0) : Type 0 where
  append : String → P → Operation F P
  register : String → String → Bool → F → Operation F P
  sync : String → ℕ → Operation F P

Indexed-snoc :
    (n : ℕ) (es : List LogEntry) (e : LogEntry)
    → Indexed n es
    → e.index ≡ n + length es
    → Indexed n (es ++ e ∷ [])
Indexed-snoc n [] e h k = (omega arith, tt)
Indexed-snoc n (x ∷ es) e h k = (h.0, Indexed-snoc (suc n) es e h.1 (omega arith))

-- Entries that all come after a position are all sent.
entries_after-whole :
    (k n : ℕ) (es : List LogEntry)
    → k < n
    → Indexed n es
    → (entries_after k es ≡ es) × All (λ e. k < e.index) es
unfolding entries_after
entries_after-whole k n [] lt h = (refl, tt)
entries_after-whole k n (e ∷ es) lt h =
    let (same, after) = entries_after-whole k (suc n) es (omega arith) h.1 in
    (ground (arith, same), (omega (arith, h.0), after))

-- What is sent is the end of the log, from the first entry after the position on.
entries_after-split :
    (k n : ℕ) (es : List LogEntry)
    → Indexed n es
    → (before : List LogEntry) × (es ≡ before ++ entries_after k es)
      × All (λ e. e.index ≤ k) before
      × All (λ e. k < e.index) (entries_after k es)
unfolding entries_after
entries_after-split k n [] h = ([], refl, tt, tt)
entries_after-split k n (e ∷ es) h = elim (Bool-cases (ltb k e.index)) [
  | inl lt ↦
      let (same, after) = entries_after-whole k (suc n) es (ground (arith, h.0)) h.1 in
      rw (lt, same) ([], refl, tt, (ltb→lt k e.index lt, after))
  | inr ge ↦
      let (before, same, old, after) = entries_after-split k (suc n) es h.1 in
      rw ge (e ∷ before, ap (λ x. e ∷ x) same, (ground arith, old), after)
]

module _ {F : Type 0} where
  abbrev Within : ℕ → String × ScifNodeState F → Type 0
  Within n p = p.1.last_log_index ≤ n

  put_peer-Within :
      (n : ℕ) (k : String) (peer : ScifNodeState F) (ps : List (String × ScifNodeState F))
      → peer.last_log_index ≤ n
      → All (Within n) ps
      → All (Within n) (put_peer k peer ps)
  unfolding put_peer
  put_peer-Within n k peer [] le h = (le, tt)
  put_peer-Within n k peer ((j, old) ∷ ps) le h = elim (Bool-cases (str_eq j k)) [
    | inl e ↦ rw e (le, h.1)
    | inr e ↦ rw e (h.0, put_peer-Within n k peer ps le h.1)
  ]

  advance_peer-Within :
      (n : ℕ) (k : String) (ps : List (String × ScifNodeState F))
      → All (Within n) ps
      → All (Within n) (advance_peer k n ps)
  unfolding advance_peer
  advance_peer-Within n k [] h = tt
  advance_peer-Within n k ((j, old) ∷ ps) h = elim (Bool-cases (str_eq j k)) [
    | inl e ↦ rw e (omega arith, h.1)
    | inr e ↦ rw e (h.0, advance_peer-Within n k ps h.1)
  ]

module _ {F P : Type 0} ⦃fl : Float F⦄ (sha256_hex : String → String) (digest : P → String) where
  unfoldable pub apply_operation :
      Operation F P → RaftStateSynchronizer F P → RaftStateSynchronizer F P
  apply_operation (append t p) node = (append_command sha256_hex digest t p node).0
  apply_operation (register k e g b) node = register_peer sha256_hex digest k e g b node
  apply_operation (sync k i) node = (sync_with_peer sha256_hex digest k i node).0

  unfoldable pub run : List (Operation F P) → RaftStateSynchronizer F P → RaftStateSynchronizer F P
  run [] node = node
  run (o ∷ os) node = run os (apply_operation o node)

  apply_operation-IsWellFormed :
      (o : Operation F P) (node : RaftStateSynchronizer F P)
      → IsWellFormed node
      → IsWellFormed (apply_operation o node)
  unfolding apply_operation append_command register_peer sync_with_peer
  apply_operation-IsWellFormed (append t p) node h = (
    Indexed-snoc 1 node.log _ h.0 (omega arith),
    All-map
        (λ p' le. omega (arith, length-append node.log (new_entry sha256_hex digest t p node ∷ [])))
        node.peers h.1,
  )
  apply_operation-IsWellFormed (register k e g b) node h =
      (h.0, put_peer-Within (length node.log) k _ node.peers (omega arith) h.1)
  apply_operation-IsWellFormed (sync k i) node h =
      (h.0, advance_peer-Within (length node.log) k node.peers h.1)

  run-keeps-IsWellFormed :
      (os : List (Operation F P)) (node : RaftStateSynchronizer F P)
      → IsWellFormed node
      → IsWellFormed (run os node)
  unfolding run
  run-keeps-IsWellFormed [] node h = h
  run-keeps-IsWellFormed (o ∷ os) node h =
      run-keeps-IsWellFormed os (apply_operation o node) (apply_operation-IsWellFormed o node h)

  -- After any run of appends, registrations and synchronisations from a new node on, the log carries
  -- the indices from 1 on without a gap and no peer is recorded beyond its end; and a synchronisation
  -- from a position that the caller gives selects the end of the log, whose entries are exactly those
  -- with an index above the position, and reports their number.
  pub run-IsWellFormed :
      (os : List (Operation F P)) (node_id enclave_name peer_id : String) (position : ℕ)
      → let node = run os (new_synchronizer node_id enclave_name) in
        IsWellFormed node
        × ((before : List LogEntry) × (node.log ≡ before ++ entries_after position node.log)
            × All (λ e. e.index ≤ position) before
            × All (λ e. position < e.index) (entries_after position node.log))
        × ((sync_with_peer sha256_hex digest peer_id position node).1.entries_replicated
            ≡ length (entries_after position node.log))
  unfolding sync_with_peer
  run-IsWellFormed os i e k position =
      let node = run os (new_synchronizer i e) in
      let h = run-keeps-IsWellFormed os (new_synchronizer i e) (tt, tt) in
      (h, entries_after-split position 1 node.log h.0, refl)

joined_hashes-snoc :
    (es : List LogEntry) (e e' : LogEntry)
    → e.payload_hash ≡ e'.payload_hash
    → joined_hashes (es ++ e ∷ []) ≡ joined_hashes (es ++ e' ∷ [])
unfolding joined_hashes
joined_hashes-snoc [] e e' h = ap (λ x. str_append x "") h
joined_hashes-snoc (x ∷ es) e e' h = ap (str_append x.payload_hash) (joined_hashes-snoc es e e' h)

module _ {F P : Type 0} ⦃fl : Float F⦄ (sha256_hex : String → String) (digest : P → String) where
  root-snoc :
      (node : RaftStateSynchronizer F P) (es : List LogEntry) (e : LogEntry)
      → node.log ≡ es ++ e ∷ []
      → compute_merkle_root sha256_hex digest node ≡ sha256_hex (joined_hashes (es ++ e ∷ []))
  unfolding compute_merkle_root
  root-snoc node [] e h = rw h
  root-snoc node (x ∷ es) e h = rw h

  -- The state root does not tell which command was appended: two commands of different types with
  -- the same payload lead to the same root.
  root_ignores_command :
      (t t' : String) (p : P) (node : RaftStateSynchronizer F P)
      → compute_merkle_root sha256_hex digest (append_command sha256_hex digest t p node).0
        ≡ compute_merkle_root sha256_hex digest (append_command sha256_hex digest t' p node).0
  unfolding append_command
  root_ignores_command t t' p node =
      root-snoc (append_command sha256_hex digest t p node).0 node.log
        (new_entry sha256_hex digest t p node) refl
      ∙ ap sha256_hex (joined_hashes-snoc node.log _ _ refl)
      ∙ sym (
          root-snoc (append_command sha256_hex digest t' p node).0 node.log
            (new_entry sha256_hex digest t' p node) refl)

-- ===== src/Connections.antt =====
-- `ConnectionManager` of app/modules/streaming/websocket.py: who listens to which execution.
pub mod Hygiene
mod Tests
use grafux_orchestrator.Prelude.{
  ℕ, suc, String, Bool, true, false, not, List, [], ◌∷◌, ◌==◌, ◌=ℕ◌, length, if◌then◌else◌,
}

-- `_connections`: the sets of web sockets, which are numbered, by execution.
abbrev pub Connections : Type 0
Connections = List (String × List ℕ)

-- `set.add` and `set.discard`
unfoldable pub add : ℕ → List ℕ → List ℕ
add ws [] = ws ∷ []
add ws (v ∷ vs) = let rest = add ws vs in if v =ℕ ws then v ∷ vs else v ∷ rest

unfoldable pub discard : ℕ → List ℕ → List ℕ
discard ws [] = []
discard ws (v ∷ vs) = let rest = discard ws vs in if v =ℕ ws then rest else v ∷ rest

-- `self._connections.get(execution_id, [])`
unfoldable pub subscribers : String → Connections → List ℕ
subscribers id [] = []
subscribers id (entry ∷ rest) =
    let later = subscribers id rest in if entry.0 == id then entry.1 else later

-- `connect`, once the web socket is accepted
unfoldable pub connect : String → ℕ → Connections → Connections
unfolding add
connect id ws [] = (id, ws ∷ []) ∷ []
connect id ws (entry ∷ rest) =
    let later = connect id ws rest in
    if entry.0 == id then (entry.0, add ws entry.1) ∷ rest else entry ∷ later

-- An entry that is kept unless its set is empty.
unfoldable pub keep_entry : String → List ℕ → Connections → Connections
keep_entry id [] rest = rest
keep_entry id (v ∷ vs) rest = (id, v ∷ vs) ∷ rest

-- `disconnect`
unfoldable pub disconnect : String → ℕ → Connections → Connections
unfolding discard keep_entry
disconnect id ws [] = []
disconnect id ws (entry ∷ rest) =
    let later = disconnect id ws rest in
    if entry.0 == id then keep_entry entry.0 (discard ws entry.1) rest else entry ∷ later

unfoldable pub disconnect_all : String → List ℕ → Connections → Connections
unfolding disconnect
disconnect_all id [] cs = cs
disconnect_all id (ws ∷ dead) cs = disconnect_all id dead (disconnect id ws cs)

-- The web sockets to which the message could not be sent.
unfoldable pub dead_ones : (ℕ → Bool) → List ℕ → List ℕ
dead_ones alive [] = []
dead_ones alive (ws ∷ rest) =
    let later = dead_ones alive rest in if alive ws then later else ws ∷ later

-- `send_to_execution`: `alive` says to which web sockets the message can be sent.
unfoldable pub send_to_execution : (ℕ → Bool) → String → Connections → Connections
unfolding dead_ones subscribers disconnect_all
send_to_execution alive id cs = disconnect_all id (dead_ones alive (subscribers id cs)) cs

-- `connection_count`
unfoldable pub connection_count : String → Connections → ℕ
unfolding subscribers
connection_count id cs = length (subscribers id cs)

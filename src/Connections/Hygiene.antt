-- ===== src/Connections/Hygiene.antt =====
-- What app/modules/streaming/websocket.py keeps of its connections.
use grafux_orchestrator.Prelude.{
  ℕ, String, ◌≢◌, Bool, Bool-cases, inl, inr, List, [], ◌∷◌, ◌==◌, ◌=ℕ◌, All,
}
use grafux_orchestrator.Connections.{
  Connections, add, discard, subscribers, connect, keep_entry, disconnect, disconnect_all,
  dead_ones, send_to_execution,
}

-- No execution is kept for which nobody listens.
abbrev pub IsTidy : Connections → Type 0
IsTidy cs = All (λ entry. entry.1 ≢ []) cs

add-not_empty : (ws : ℕ) (vs : List ℕ) → add ws vs ≢ []
unfolding add
add-not_empty ws [] e = cc
add-not_empty ws (v ∷ vs) e = elim (Bool-cases (v =ℕ ws)) [
  | inl h ↦ let k = (rw h at e) in absurd cc
  | inr h ↦ let k = (rw h at e) in absurd cc
]

connect-IsTidy : (id : String) (ws : ℕ) (cs : Connections) → IsTidy cs → IsTidy (connect id ws cs)
unfolding connect
connect-IsTidy id ws [] h = (λ e. cc, tt)
connect-IsTidy id ws (entry ∷ rest) h = elim (Bool-cases (entry.0 == id)) [
  | inl e ↦ rw e (add-not_empty ws entry.1, h.1)
  | inr e ↦ rw e (h.0, connect-IsTidy id ws rest h.1)
]

keep_entry-IsTidy :
    (id : String) (vs : List ℕ) (rest : Connections) → IsTidy rest → IsTidy (keep_entry id vs rest)
unfolding keep_entry
keep_entry-IsTidy id [] rest h = h
keep_entry-IsTidy id (v ∷ vs) rest h = (λ e. cc, h)

disconnect-IsTidy :
    (id : String) (ws : ℕ) (cs : Connections) → IsTidy cs → IsTidy (disconnect id ws cs)
unfolding disconnect
disconnect-IsTidy id ws [] h = tt
disconnect-IsTidy id ws (entry ∷ rest) h = elim (Bool-cases (entry.0 == id)) [
  | inl e ↦ rw e (keep_entry-IsTidy entry.0 (discard ws entry.1) rest h.1)
  | inr e ↦ rw e (h.0, disconnect-IsTidy id ws rest h.1)
]

disconnect_all-IsTidy :
    (id : String) (dead : List ℕ) (cs : Connections)
    → IsTidy cs
    → IsTidy (disconnect_all id dead cs)
unfolding disconnect_all
disconnect_all-IsTidy id [] cs h = h
disconnect_all-IsTidy id (ws ∷ dead) cs h =
    disconnect_all-IsTidy id dead _ (disconnect-IsTidy id ws cs h)

-- The steps of the manager: a client comes, a client goes, a message is sent to those of an execution,
-- some of whom may be gone.
pub data Reached : Connections → Type 0 where
  nobody : Reached []
  came : (id : String) (ws : ℕ) (cs : Connections) → Reached cs → Reached (connect id ws cs)
  went : (id : String) (ws : ℕ) (cs : Connections) → Reached cs → Reached (disconnect id ws cs)
  sent :
      (alive : ℕ → Bool) (id : String) (cs : Connections)
      → Reached cs
      → Reached (send_to_execution alive id cs)

-- Whatever the clients do, no execution is kept for which nobody listens.
pub Reached-IsTidy : (cs : Connections) → Reached cs → IsTidy cs
unfolding send_to_execution
Reached-IsTidy cs nobody = tt
Reached-IsTidy cs (came id ws before r) = connect-IsTidy id ws before (Reached-IsTidy before r)
Reached-IsTidy cs (went id ws before r) = disconnect-IsTidy id ws before (Reached-IsTidy before r)
Reached-IsTidy cs (sent alive id before r) =
    disconnect_all-IsTidy id (dead_ones alive (subscribers id before)) before
      (Reached-IsTidy before r)

-- ===== src/Connection/Cleanup.antt =====
-- `CleanupDeadConnections`, `RemoveConnection` and `AddConnection` seen through the lookups.
use zerogame.Shared.{
  ℕ, ◌≡◌, refl, sym, ap, inl, inr, not, string_key, Option-cases, ◌∙◌, ◌≢◌, Bool, true, false,
  Option, none, some, List, [], ◌∷◌, ◌++◌, elem, Unique, if◌then◌else◌, ◌==◌, nat_key, arith,
}
use zerogame.Shared.Int.{ℤ, int_key}
use zerogame.Shared.Effect.{after}
use mathlib.Core.List.{append_assoc, append-nil}
use zerogame.Shared.GoMap.{get, delete, Distinct}
use zerogame.Connection.Rooms.{vacate_frame}
use zerogame.Connection.Invariant.{WellFormed}
use zerogame.Connection.Lookups.{get-remove_connection_internal}
use zerogame.Connection.Reach.{cleanup_dead_connections-after}
use zerogame.Connection.{
  Conn, ConnectionManager, ClientConnection, is_dead, dead_connections, remove_all,
  remove_connection_internal, cleanup_dead_connections,
}

abbrev pub dead_entry : ℤ → ℕ → Option ClientConnection → Bool
dead_entry timeout now none = false
dead_entry timeout now (some client) = is_dead timeout now client

pub elem-dead_connections :
    (timeout : ℤ) (now : ℕ) (m : List (Conn × ClientConnection)) (c : Conn)
    → Distinct m
    → elem c (dead_connections timeout now m) ≡ dead_entry timeout now (get c m)
unfolding dead_connections get
elem-dead_connections timeout now [] c d = refl
elem-dead_connections timeout now ((j, client) ∷ m) c d =
    ground
      (arith, elem-dead_connections timeout now m c d.1, elem-dead_connections timeout now m j d.1)

pub dead_connections-Unique :
    (timeout : ℤ) (now : ℕ) (m : List (Conn × ClientConnection))
    → Distinct m
    → Unique (dead_connections timeout now m)
unfolding dead_connections
dead_connections-Unique timeout now [] d = tt
dead_connections-Unique timeout now ((j, client) ∷ m) d =
    ground
      (arith, dead_connections-Unique timeout now m d.1, elem-dead_connections timeout now m j d.1)

pub get-remove_all :
    (cs : List Conn) (cm : ConnectionManager) (d : Conn)
    → get d (remove_all cs cm).connections ≡ (if elem d cs then none else get d cm.connections)
unfolding remove_all
get-remove_all [] cm d = refl
get-remove_all (c ∷ cs) cm d = ground (
  arith,
  get-remove_all cs (remove_connection_internal c cm) d,
  get-remove_connection_internal cm c d,
)

closed-remove_connection_internal :
    (c : Conn) (cm : ConnectionManager)
    → get c cm.connections ≢ none
    → (remove_connection_internal c cm).closed ≡ cm.closed ++ c ∷ []
unfolding remove_connection_internal
closed-remove_connection_internal c cm held = elim (Option-cases (get c cm.connections)) [
  | inl e ↦ absurd (held e)
  | inr (client, e) ↦
      let unlisted = record cm { user_connections = delete client.user_id cm.user_connections } in
      rw (e, remove_connection_internal)
        (ap (λ cs. cs ++ c ∷ [])
          (vacate_frame c client.room_id unlisted (not (client.room_id == ""))).4)
]

closed-remove_all :
    (cs : List Conn) (cm : ConnectionManager)
    → Unique cs
    → ((c : Conn) → elem c cs ≡ true → get c cm.connections ≢ none)
    → (remove_all cs cm).closed ≡ cm.closed ++ cs
unfolding remove_all
closed-remove_all [] cm u held = sym (append-nil cm.closed)
closed-remove_all (c ∷ cs) cm u held =
    closed-remove_all cs (remove_connection_internal c cm) u.1 still
    ∙ ap (λ ds. ds ++ cs) (closed-remove_connection_internal c cm (held c (ground arith)))
    ∙ append_assoc cm.closed (c ∷ []) cs
  where
    still :
        (d : Conn) → elem d cs ≡ true → get d (remove_connection_internal c cm).connections ≢ none
    still d later = ground (arith, u.0, held d, get-remove_connection_internal cm c d)

-- A cleanup of a well-formed manager drops exactly the connections whose last heartbeat lies more
-- than `timeout` back, keeps every other record as it is, and closes each dropped socket once, and
-- no other.
pub cleanup_dead_connections_exact :
    (cm : ConnectionManager) (timeout : ℤ) (now : ℕ)
    → WellFormed cm
    → let dead = dead_connections timeout now cm.connections in
      let cleaned = after (cleanup_dead_connections timeout now cm) in
      ((c : Conn)
        → get c cleaned.connections
          ≡ (if dead_entry timeout now (get c cm.connections) then none else get c cm.connections))
      × (cleaned.closed ≡ cm.closed ++ dead)
      × ((c : Conn) → elem c dead ≡ dead_entry timeout now (get c cm.connections))
      × Unique dead
cleanup_dead_connections_exact cm timeout now wf =
    let m = cm.connections in
    let dead = dead_connections timeout now m in
    rw (cleanup_dead_connections-after cm timeout now) (
      λ c. ground (
        arith,
        get-remove_all dead cm c,
        elem-dead_connections timeout now m c wf.distinct_connections,
      ),
      closed-remove_all dead cm (dead_connections-Unique timeout now m wf.distinct_connections)
          (λ c e. ground (arith, elem-dead_connections timeout now m c wf.distinct_connections)),
      λ c. elem-dead_connections timeout now m c wf.distinct_connections,
      dead_connections-Unique timeout now m wf.distinct_connections,
    )

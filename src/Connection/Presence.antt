-- ===== src/Connection/Presence.antt =====
-- What server/gateway_ws/internal/manager/connection.go promises the rest of the gateway, without
-- its maps: who is connected, where each sits, and which socket a user is reached on. The room sets
-- and the order of the maps are forgotten.
pub mod Refinement
use zerogame.Shared.{
  ℕ, ◌+◌, ◌-◌, ◌≡◌, ◌≢◌, String, Bool, true, false, Option, none, some, List, [], ◌∷◌, elem, Unique,
  if◌then◌else◌, ◌==◌, nat_key, string_key, length, not, ◌&&◌,
}
use zerogame.Shared.Int.{ℤ, pos, leb_ℤ, ltb_ℤ, sub_ℕ, int_key}
use zerogame.Shared.GoMap.{get, is_some}
use zerogame.Connection.{
  Conn, ClientConnection, ConnectionManager, get_connection, get_connection_count,
  get_all_connections, get_room_connections,
}

-- A connection's user, its room (empty for none) and its last heartbeat.
pub record Seat : Type 0 where
  pub user : ℤ
  pub room : String
  pub beat : ℕ

pub record Presence : Type 0 where
  pub held : Conn → Option Seat
  pub desk : ℤ → Option Conn
  pub size : ℕ
  pub limit : ℤ

abbrev pub vacant : ℤ → Presence
vacant max = record { held = λ c. none; desk = λ u. none; size = 0; limit = max }

abbrev set_at : Conn → Option Seat → (Conn → Option Seat) → Conn → Option Seat
set_at c s held d = if c == d then s else held d

abbrev desk_at : ℤ → Option Conn → (ℤ → Option Conn) → ℤ → Option Conn
desk_at u c desk v = if u == v then c else desk v

unfoldable pub enter : Conn → ℤ → ℕ → Presence → Presence
enter c u now p = if leb_ℤ p.limit (pos p.size) then p else record p {
  held = set_at c (some (record { user = u; room = ""; beat = now })) p.held;
  desk = desk_at u (some c) p.desk;
  size = p.size + 1;
}

unfoldable pub exit : Conn → Presence → Presence
exit c p = elim (p.held c) [
  | none ↦ p
  | some s ↦ record p {
    held = set_at c none p.held;
    desk = desk_at s.user none p.desk;
    size = p.size - 1;
  }
]

-- To a room, or out of all rooms.
unfoldable pub move : Conn → String → Presence → Presence
move c r p = elim (p.held c) [
  | none ↦ p
  | some s ↦ record p { held = set_at c (some (record s { room = r })) p.held }
]

unfoldable pub beat_at : Conn → ℕ → Presence → Presence
beat_at c now p = elim (p.held c) [
  | none ↦ p
  | some s ↦ record p { held = set_at c (some (record s { beat = now })) p.held }
]

unfoldable pub exit_all : List Conn → Presence → Presence
exit_all [] p = p
exit_all (c ∷ cs) p = exit_all cs (exit c p)

-- A held seat whose last heartbeat lies more than the timeout back.
abbrev pub late : ℤ → ℕ → Option Seat → Bool
late timeout now none = false
late timeout now (some s) = ltb_ℤ timeout (sub_ℕ now s.beat)

-- One call, as its caller sees it. A sweep takes exactly the late connections, in some order.
pub data Act (p : Presence) : Presence → Type 0 where
  enters : (c : Conn) (u : ℤ) (now : ℕ) → p.held c ≡ none → Act p (enter c u now p)
  exits : (c : Conn) → Act p (exit c p)
  moves : (c : Conn) (r : String) → r ≢ "" → Act p (move c r p)
  leaves : (c : Conn) → Act p (move c "" p)
  beats : (c : Conn) (now : ℕ) → Act p (beat_at c now p)
  sweeps :
      (timeout : ℤ) (now : ℕ) (cs : List Conn)
      → Unique cs
      → ((c : Conn) → elem c cs ≡ late timeout now (p.held c))
      → Act p (exit_all cs p)

pub data Run (from : Presence) : Presence → Type 0 where
  start : Run from from
  go : {p q : Presence} → Run from p → Act p q → Run from q

abbrev pub seat_of : Option ClientConnection → Option Seat
seat_of none = none
seat_of (some client) =
    some (record { user = client.user_id; room = client.room_id; beat = client.last_heartbeat })

-- The abstraction function.
unfoldable pub view : ConnectionManager → Presence
view cm = record {
  held = λ c. seat_of (get c cm.connections);
  desk = λ u. get u cm.user_connections;
  size = length cm.connections;
  limit = cm.max_connections;
}

abbrev pub sits : Option Seat → String → Bool
sits none room_id = false
sits (some s) room_id = not (s.room == "") && (s.room == room_id)

-- Every lookup of the manager answers as the presence says.
pub record Shows (cm : ConnectionManager) (p : Presence) : Type 0 where
  pub reached : (u : ℤ) → get_connection u cm ≡ p.desk u
  pub counted : get_connection_count cm ≡ p.size
  pub listed : (c : Conn) → elem c (get_all_connections cm) ≡ is_some (p.held c)
  pub seated : (r : String) (c : Conn) → elem c (get_room_connections r cm) ≡ sits (p.held c) r
  pub once : (r : String) → Unique (get_room_connections r cm)

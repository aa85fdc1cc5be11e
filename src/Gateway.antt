-- ===== src/Gateway.antt =====
-- The state that the parts of server/gateway_ws/internal/manager share, and the sockets.
--
-- `Broadcaster`, `DefaultMessageHandler` and `WebSocketServer` hold pointers to one connection
-- manager and one broadcaster, so one record stands for what they all see.
pub mod Steps
use zerogame.Shared.{String, Bool, Option, none, some, List, [], ◌∷◌, ◌++◌, length}
use zerogame.Shared.Int.{ℤ}
use zerogame.Shared.Effect.{M, Outcome, returned, panicked, Logger}
use zerogame.Message.{Bytes, WebSocketMessage}
use zerogame.Message.Failure.{Error, Result, ok, err, Call}
use zerogame.Connection.{Conn, ConnectionManager}

-- `BroadcastMessage` of broadcaster.go.
pub record BroadcastMessage : Type 0 where
  pub message : WebSocketMessage
  pub target_users : List ℤ
  pub target_rooms : List String
  pub exclude_user : ℤ

pub record Gateway : Type 0 where
  pub conn_mgr : ConnectionManager
  -- `messageCh`, oldest first, and whether `close` was called on it.
  pub message_ch : List BroadcastMessage
  pub message_ch_closed : Bool
  -- Whether `close` was called on the `taskQueue` of the broadcaster's pool.
  pub task_queue_closed : Bool
  -- The logger embedded in `Broadcaster`.
  pub logger : Logger
  -- The frames that `WriteMessage` has sent, oldest first.
  pub sent : List (Conn × Bytes)

-- github.com/gorilla/websocket: what `WriteMessage` returns on a socket, after the frames that were
-- sent before. `none` is success.
pub record Net : Type 0 where
  pub write_error : List (Conn × Bytes) → Conn → Bytes → Option Error

-- Code over the gateway that returns `(A, error)`; a failed step ends it, as `if err != nil
-- { return err }` does.
abbrev pub G : Type 0 → Type 0
G A = M Gateway (Result A)

abbrev pub pure_ok : {A : Type 0} → A → G A
pure_ok a g = (returned (ok a), g)

abbrev pub next_of :
    {A B : Type 0} → Outcome (Result A) × Gateway → (A → G B) → Outcome (Result B) × Gateway
next_of (returned (ok a), g) f = f a g
next_of (returned (err e), g) f = (returned (err e), g)
next_of (panicked, g) f = (panicked, g)

infixl 5 ◌>>=◌ ◌>>◌
abbrev pub ◌>>=◌ : {A B : Type 0} → G A → (A → G B) → G B
◌>>=◌ m f g = next_of (m g) f

abbrev pub ◌>>◌ : {B : Type 0} → G (Unit {0}) → G B → G B
m >> k = m >>= λ _. k

-- A call that does not touch the gateway, such as one of the parser's.
abbrev pub lift : {A : Type 0} → Call A → G A
lift call g = (call, g)

abbrev pub lifted :
    {A : Type 0} → Outcome A × ConnectionManager → Gateway → Outcome (Result A) × Gateway
lifted (returned a, cm) g = (returned (ok a), record g { conn_mgr = cm })
lifted (panicked, cm) g = (panicked, record g { conn_mgr = cm })

-- A call of a method of the connection manager.
abbrev pub on_mgr : {A : Type 0} → M ConnectionManager A → G A
on_mgr m g = lifted (m g.conn_mgr) g

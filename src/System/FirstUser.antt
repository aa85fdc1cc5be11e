-- ===== src/System/FirstUser.antt =====
-- Who a broadcast to one user reaches on a gateway that runs.
use zerogame.Shared.{◌≡◌, ◌≢◌, inl, inr, Option-cases, none, List, [], ◌∷◌, arith}
use zerogame.Shared.Int.{ℤ, pos, int_key}
use zerogame.Shared.GoMap.{get}
use zerogame.Shared.Effect.{Logger, after}
use zerogame.Message.{WebSocketMessage}
use zerogame.Parser.{MessageParserInterface}
use zerogame.Connection.{ConnectionManager, get_connection}
use zerogame.Gateway.{Net}
use zerogame.Broadcaster.{target_conns, user_targets}
use zerogame.Router.{MessageRouter}
use zerogame.Handler.{DefaultMessageHandler}
use zerogame.System.{Event, play_all}
use zerogame.System.Sound.{Sound}
use zerogame.System.Reachable.{fresh_gateway, gateway_stays_sound}

other_user_absent :
    (cm : ConnectionManager) (u : ℤ) → Sound cm → u ≢ pos 1 → get_connection u cm ≡ none
unfolding get_connection
other_user_absent cm u s other = elim (Option-cases (get u cm.user_connections)) [
  | inl e ↦ e
  | inr (c, e) ↦ absurd (ground (arith, other, s.users_live u c e, s.first_user c))
]

-- With loggers that are set or not, and whatever events have played since the gateway was made: a
-- broadcast to one user, such as a private chat, has no target at all unless the user is 1, since
-- every login is given the user 1.
pub only_first_user_reached :
    (max : ℤ) (mgr_logger broadcaster_logger : Logger) (net : Net) (parser : MessageParserInterface)
    (router : MessageRouter DefaultMessageHandler) (es : List Event) (u exclude : ℤ)
    (msg : WebSocketMessage)
    → u ≢ pos 1
    → let g =
        after (play_all net parser router es (fresh_gateway max mgr_logger broadcaster_logger)) in
      target_conns
        (record { message = msg; target_users = u ∷ []; target_rooms = []; exclude_user = exclude })
        g.conn_mgr
      ≡ []
unfolding target_conns user_targets
only_first_user_reached max mgr_logger broadcaster_logger net parser router es u exclude msg other =
    let g =
      after (play_all net parser router es (fresh_gateway max mgr_logger broadcaster_logger)) in
    let sound = gateway_stays_sound max mgr_logger broadcaster_logger net parser router es in
    rw (other_user_absent g.conn_mgr u sound.manager other, user_targets) (ground arith)

-- ===== src/Handler/Tests.antt =====
-- router.go's handlers on the manager of the connection manager's tests.
use zerogame.Shared.{◌≡◌, refl, [], none, some, false, ℕ_discrete}
use zerogame.Shared.Int.{pos, int_key, ℤ_discrete}
use zerogame.Shared.GoMap.{get}
use zerogame.Shared.Effect.{after, nil}
use zerogame.Message.{WebSocketMessage}
use zerogame.Message.Body.{Body, kind}
use zerogame.Parser.{MessageParserInterface, with_body}
use zerogame.Parser.Json.{json_interface, new_message_parser, serialize_cases}
use zerogame.Parser.Tests.{sample_codec, header_of}
use zerogame.Connection.Tests.{seated}
use zerogame.Gateway.{Gateway, Net}
use zerogame.Gateway.Steps.{SentTo}
use zerogame.Handler.{new_default_message_handler}
use zerogame.Handler.Dispatch.{handle}
use zerogame.Handler.ManagerChanges.{mgr_change}
use zerogame.Handler.Replies.{handle_changes}

abbrev reliable : Net
reliable = record { write_error = λ sent c b. none }

abbrev parser : MessageParserInterface
parser = json_interface sample_codec new_message_parser

abbrev gateway : Gateway
gateway = record {
  conn_mgr = seated;
  message_ch = [];
  message_ch_closed = false;
  task_queue_closed = false;
  logger = nil;
  sent = [];
}

abbrev join_table : Body
join_table = Body.join_room (record { room_id = "table"; password = "" })

abbrev join_request : WebSocketMessage
join_request = with_body (header_of 3 10) []

join_type : get (pos 3) serialize_cases ≡ some (kind join_table)
unfolding get ℤ_discrete ℕ_discrete
join_type = refl

handle_changes_example :
    let g' =
      after (
        handle reliable parser 1000 new_default_message_handler 7 join_request join_table
          gateway) in
    (g'.conn_mgr ≡ mgr_change join_table 7 1000 seated) × SentTo 7 [] g'.sent
handle_changes_example =
    handle_changes reliable parser 1000 new_default_message_handler 7 join_request (header_of 3 10)
      join_table gateway refl join_type

-- ===== src/Message/Body.antt =====
-- What the gateway passes round as an `interface{}`, its dynamic type, and the errors that it makes.
use zerogame.Shared.{String, List, Key}
use zerogame.Shared.Int.{ℤ}
use zerogame.Message.{
  Heartbeat, LoginMessage, JoinRoomMessage, LeaveRoomMessage, GameActionMessage, ChatMessage,
  UserInfoQuery, RoomListQuery, GameStatePush, RoomInfoPush, UserUpdatePush, SystemMessagePush,
  ChatMessagePush, BroadcastPush, RoomListResponse,
}

-- A value of a `map[string]interface{}` that the handlers fill.
pub data Value : Type 0 where
  int : ℤ → Value
  text : String → Value

pub data Body : Type 0 where
  heartbeat : Heartbeat → Body
  login : LoginMessage → Body
  logout : Body
  join_room : JoinRoomMessage → Body
  leave_room : LeaveRoomMessage → Body
  game_action : GameActionMessage → Body
  chat : ChatMessage → Body
  user_info_query : UserInfoQuery → Body
  room_list_query : RoomListQuery → Body
  game_state : GameStatePush → Body
  room_info : RoomInfoPush → Body
  user_update : UserUpdatePush → Body
  system_message : SystemMessagePush → Body
  chat_push : ChatMessagePush → Body
  broadcast : BroadcastPush → Body
  room_list : RoomListResponse → Body
  fields : List (String × Value) → Body

-- The dynamic type.
pub data Kind : Type 0 where
  heartbeat login logout join_room leave_room game_action chat user_info_query room_list_query :
      Kind
  game_state room_info user_update system_message chat_push broadcast room_list fields : Kind

abbrev pub kind : Body → Kind
kind (heartbeat m) = heartbeat
kind (login m) = login
kind logout = logout
kind (join_room m) = join_room
kind (leave_room m) = leave_room
kind (game_action m) = game_action
kind (chat m) = chat
kind (user_info_query m) = user_info_query
kind (room_list_query m) = room_list_query
kind (game_state m) = game_state
kind (room_info m) = room_info
kind (user_update m) = user_update
kind (system_message m) = system_message
kind (chat_push m) = chat_push
kind (broadcast m) = broadcast
kind (room_list m) = room_list
kind (fields m) = fields

unfoldable pub Kind_discrete : Discrete Kind
Kind_discrete = hlevel

instance abbrev pub kind_key : Key Kind
kind_key = record { dec = Kind_discrete }

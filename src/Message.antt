-- ===== src/Message.antt =====
-- pb/websocket.pb.go and its source, proto/websocket.proto: the messages of the WebSocket gateway.
--
-- An int32 or an int64 is an integer, and a `[]byte` is the list of its bytes. An `interface{}` is
-- a `Body`, with a constructor for each dynamic type that the gateway puts into one.
pub mod Body
pub mod Failure
pub mod ErrorText
use zerogame.Shared.{ℕ, String, List, Option}
use zerogame.Shared.Int.{ℤ, pos}

abbrev pub Bytes : Type 0
Bytes = List ℕ

-- The enum `MessageType` is an int32: a client may send any number.
abbrev pub MessageType : Type 0
MessageType = ℤ

abbrev pub msg_heartbeat : MessageType
msg_heartbeat = pos 0

abbrev pub msg_login : MessageType
msg_login = pos 1

abbrev pub msg_logout : MessageType
msg_logout = pos 2

abbrev pub msg_join_room : MessageType
msg_join_room = pos 3

abbrev pub msg_leave_room : MessageType
msg_leave_room = pos 4

abbrev pub msg_game_action : MessageType
msg_game_action = pos 5

abbrev pub msg_chat : MessageType
msg_chat = pos 6

abbrev pub msg_user_info_query : MessageType
msg_user_info_query = pos 7

abbrev pub msg_room_list_query : MessageType
msg_room_list_query = pos 8

abbrev pub msg_push_game_state : MessageType
msg_push_game_state = pos 100

abbrev pub msg_push_room_info : MessageType
msg_push_room_info = pos 101

abbrev pub msg_push_user_update : MessageType
msg_push_user_update = pos 102

abbrev pub msg_push_system_msg : MessageType
msg_push_system_msg = pos 103

abbrev pub msg_push_chat_msg : MessageType
msg_push_chat_msg = pos 104

abbrev pub msg_push_broadcast : MessageType
msg_push_broadcast = pos 105

pub record MessageHeader : Type 0 where
  pub msg_type : MessageType
  pub msg_id : String
  pub timestamp : ℤ
  pub user_id : ℤ
  pub room_id : String
  pub game_id : String

-- The header is a pointer, and may be nil.
pub record WebSocketMessage : Type 0 where
  pub header : Option MessageHeader
  pub body : Bytes

pub record Heartbeat : Type 0 where
  pub client_time : ℤ

pub record LoginMessage : Type 0 where
  pub token : String

pub record JoinRoomMessage : Type 0 where
  pub room_id : String
  pub password : String

pub record LeaveRoomMessage : Type 0 where
  pub room_id : String

pub record GameActionMessage : Type 0 where
  pub action_type : String
  pub action_data : Bytes

pub record ChatMessage : Type 0 where
  pub chat_type : ℤ
  pub target_id : ℤ
  pub content : String

pub record UserInfoQuery : Type 0 where
  pub user_id : ℤ

pub record RoomListQuery : Type 0 where
  pub game_type : String
  pub page : ℤ
  pub page_size : ℤ

pub record GameStatePush : Type 0 where
  pub room_id : String
  pub game_status : ℤ
  pub game_data : Bytes
  pub update_time : ℤ

pub record RoomInfoPush : Type 0 where
  pub room_id : String
  pub room_name : String
  pub player_count : ℤ
  pub max_players : ℤ
  pub room_status : ℤ
  pub room_data : Bytes

pub record UserUpdatePush : Type 0 where
  pub user_id : ℤ
  pub status : ℤ
  pub location : String
  pub user_data : Bytes

pub record SystemMessagePush : Type 0 where
  pub msg_type : ℤ
  pub title : String
  pub content : String
  pub expire_at : ℤ

pub record ChatMessagePush : Type 0 where
  pub sender_id : ℤ
  pub sender_name : String
  pub chat_type : ℤ
  pub target_id : ℤ
  pub content : String
  pub send_time : ℤ

pub record BroadcastPush : Type 0 where
  pub broadcast_id : String
  pub broadcast_type : ℤ
  pub title : String
  pub content : String
  pub extra_data : Bytes

pub record RoomInfo : Type 0 where
  pub room_id : String
  pub room_name : String
  pub game_type : String
  pub player_count : ℤ
  pub max_players : ℤ
  pub room_status : ℤ
  pub create_time : String

pub record RoomListResponse : Type 0 where
  pub rooms : List RoomInfo
  pub total_count : ℤ
  pub page : ℤ
  pub page_size : ℤ

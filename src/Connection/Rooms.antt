-- ===== src/Connection/Rooms.antt =====
-- The rooms of the connection manager: who sits where, before and after each operation of
-- connection.go.
use zerogame.Shared.{
  ◌≡◌, ◌<◌, String, Bool, true, false, not, ◌&&◌, Option, none, some, [], length, if◌then◌else◌,
  ◌==◌, string_key, nat_key, arith,
}
use zerogame.Shared.GoMap.{
  get, put, delete, is_some, Distinct, get-put, get-delete, get_of_empty, put-Distinct,
  delete-Distinct, delete-put, ne-nil_of_get,
}
use zerogame.Connection.{
  Conn, ConnectionManager, ClientConnection, RoomConns, leave_room_internal, drop_from_room,
  room_or_new, take_seat,
}

-- `conn` is in the set that the map keeps for the room.
abbrev pub in_set : Option RoomConns → Conn → Bool
in_set none conn = false
in_set (some room_conns) conn = is_some (get conn room_conns)

unfoldable pub in_room : ConnectionManager → String → Conn → Bool
in_room cm room_id conn = in_set (get room_id cm.room_connections) conn

-- A room's set is a map with at least one entry, or the room is not there.
abbrev pub IsTidy : Option RoomConns → Type 0
IsTidy none = Unit
IsTidy (some room_conns) = Distinct room_conns × (0 < length room_conns)

abbrev pub AllTidy : ConnectionManager → Type 0
AllTidy cm = (r : String) → IsTidy (get r cm.room_connections)

module _ (c : Conn) (r : String) (cm : ConnectionManager) where
  abbrev set : RoomConns
  set = room_or_new (get r cm.room_connections)

  pub in_room-leave_room_internal :
      (q : String) (d : Conn)
      → in_room (leave_room_internal c r cm) q d
        ≡ (if (r == q) && (c == d) then false else in_room cm q d)
  unfolding in_room leave_room_internal
  in_room-leave_room_internal q d = ground (
    arith,
    get-put r q (delete c set) cm.room_connections,
    get-delete r q cm.room_connections,
    get-delete c d set,
    get_of_empty d (delete c set),
  )

  pub leave_room_internal_frame :
      ((leave_room_internal c r cm).connections ≡ cm.connections)
      × ((leave_room_internal c r cm).user_connections ≡ cm.user_connections)
      × ((leave_room_internal c r cm).max_connections ≡ cm.max_connections)
      × ((leave_room_internal c r cm).logger ≡ cm.logger)
      × ((leave_room_internal c r cm).closed ≡ cm.closed)
  unfolding leave_room_internal
  leave_room_internal_frame = ground arith

  pub vacate_frame :
      (b : Bool)
      → let left = (if b then leave_room_internal c r cm else cm) in
        (left.connections ≡ cm.connections)
        × (left.user_connections ≡ cm.user_connections)
        × (left.max_connections ≡ cm.max_connections)
        × (left.logger ≡ cm.logger)
        × (left.closed ≡ cm.closed)
  unfolding leave_room_internal
  vacate_frame b = ground arith

  pub leave_room_internal-Tidy :
      (q : String)
      → IsTidy (get q cm.room_connections)
      → IsTidy (get q (leave_room_internal c r cm).room_connections)
  unfolding leave_room_internal
  leave_room_internal-Tidy q t = ground (
    arith,
    get-put r q (delete c set) cm.room_connections,
    get-delete r q cm.room_connections,
    delete-Distinct c set,
  )

  -- The room part that `RemoveConnection` writes out is `leaveRoomInternal`.
  pub drop_from_room_lem :
      drop_from_room c r cm ≡ (if not (r == "") then leave_room_internal c r cm else cm)
  unfolding drop_from_room leave_room_internal
  drop_from_room_lem = ground (arith, delete-put r (delete c set) cm.room_connections)

  module _ (client : ClientConnection) where
    pub in_room-take_seat :
        (q : String) (d : Conn)
        → in_room (take_seat c r client cm) q d
          ≡ (if (r == q) && (c == d) then true else in_room cm q d)
    unfolding in_room take_seat
    in_room-take_seat q d = ground (
      arith,
      get-put r q (put c true set) cm.room_connections,
      get-put c d true set,
      get_of_empty {V = Bool} d [],
    )

    pub take_seat-Tidy :
        (q : String)
        → IsTidy (get q cm.room_connections)
        → IsTidy (get q (take_seat c r client cm).room_connections)
    unfolding take_seat
    take_seat-Tidy q t = ground (
      arith,
      get-put r q (put c true set) cm.room_connections,
      put-Distinct c true set,
      get-put c c true set,
      ne-nil_of_get c (put c true set),
    )

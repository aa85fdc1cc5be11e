-- ===== src/Broadcaster/Targets.antt =====
-- Whom `processBroadcastMessage` of broadcaster.go sends to.
use zerogame.Shared.{
  ◌≡◌, refl, ◌≢◌, String, Bool, true, false, not, ◌&&◌, ◌||◌, Option, none, some, List, [], ◌∷◌,
  elem, Unique, if◌then◌else◌, ◌==◌, nat_key, string_key, arith,
}
use zerogame.Shared.Int.{ℤ, pos, ltb_ℤ, int_key}
use zerogame.Shared.GoMap.{
  get, put, keys, is_some, Distinct, get-put, put-Distinct, elem-keys, keys-Unique,
}
use zerogame.Connection.{
  Conn, ConnectionManager, ClientConnection, RoomConns, get_connection, get_client_connection,
  get_room_connections, get_all_connections,
}
use zerogame.Connection.Invariant.{WellFormed, seat}
use zerogame.Connection.Lookups.{get_room_connections_exact}
use zerogame.Gateway.{BroadcastMessage}
use zerogame.Broadcaster.{
  target_conns, user_targets, mark_all, mark_rooms, skip_excluded, keep_others, is_excluded,
  is_other,
}

-- The room that the connection's own record names is one of the list.
abbrev pub seat_among : Option ClientConnection → List String → Bool
seat_among client [] = false
seat_among client (r ∷ rs) = seat client r || seat_among client rs

-- The exclusion is on, and the connection is the excluded user's.
abbrev pub shut_out : ℤ → Option ClientConnection → Bool
shut_out exclude client = ltb_ℤ (pos 0) exclude && is_excluded exclude client

-- The connection is the one that the user map has for one of the users.
abbrev pub reached : Conn → List ℤ → ConnectionManager → Bool
reached c [] cm = false
reached c (u ∷ us) cm = is_conn (get u cm.user_connections) || reached c us cm
  where
    is_conn : Option Conn → Bool
    is_conn none = false
    is_conn (some d) = d == c

pub elem-mark_all :
    (cs : List Conn) (marked : RoomConns) (c : Conn)
    → is_some (get c (mark_all cs marked)) ≡ (elem c cs || is_some (get c marked))
unfolding mark_all
elem-mark_all [] marked c = refl
elem-mark_all (d ∷ cs) marked c =
    ground (arith, elem-mark_all cs (put d true marked) c, get-put d c true marked)

pub mark_all-Distinct :
    (cs : List Conn) (marked : RoomConns) → Distinct marked → Distinct (mark_all cs marked)
unfolding mark_all
mark_all-Distinct [] marked d = d
mark_all-Distinct (c ∷ cs) marked d = mark_all-Distinct cs _ (put-Distinct c true marked d)

module _ (cm : ConnectionManager) where
  pub mark_rooms-Distinct :
      (rs : List String) (marked : RoomConns) → Distinct marked → Distinct (mark_rooms rs cm marked)
  unfolding mark_rooms
  mark_rooms-Distinct [] marked d = d
  mark_rooms-Distinct (r ∷ rs) marked d =
      mark_rooms-Distinct rs (mark_all (get_room_connections r cm) marked)
        (mark_all-Distinct (get_room_connections r cm) marked d)

  elem-mark_rooms :
      WellFormed cm
      → (rs : List String) (marked : RoomConns) (c : Conn)
      → is_some (get c (mark_rooms rs cm marked))
        ≡ (seat_among (get c cm.connections) rs || is_some (get c marked))
  unfolding mark_rooms
  elem-mark_rooms wf [] marked c = refl
  elem-mark_rooms wf (r ∷ rs) marked c = ground (
    arith,
    elem-mark_rooms wf rs (mark_all (get_room_connections r cm) marked) c,
    elem-mark_all (get_room_connections r cm) marked c,
    (get_room_connections_exact cm r wf).0 c,
  )

  pub elem-skip_excluded :
      (exclude : ℤ) (cs : List Conn) (c : Conn)
      → elem c (skip_excluded exclude cm cs)
        ≡ (elem c cs && not (shut_out exclude (get c cm.connections)))
  unfolding skip_excluded get_client_connection
  elem-skip_excluded exclude [] c = refl
  elem-skip_excluded exclude (d ∷ cs) c = ground (arith, elem-skip_excluded exclude cs c)

  pub skip_excluded-Unique :
      (exclude : ℤ) (cs : List Conn) → Unique cs → Unique (skip_excluded exclude cm cs)
  unfolding skip_excluded
  skip_excluded-Unique exclude [] u = tt
  skip_excluded-Unique exclude (d ∷ cs) u =
      ground (arith, skip_excluded-Unique exclude cs u.1, elem-skip_excluded exclude cs d)

  elem-keep_others :
      (exclude : ℤ) (cs : List Conn) (c : Conn)
      → elem c (keep_others exclude cm cs) ≡ (elem c cs && is_other exclude (get c cm.connections))
  unfolding keep_others get_client_connection
  elem-keep_others exclude [] c = refl
  elem-keep_others exclude (d ∷ cs) c = ground (arith, elem-keep_others exclude cs c)

  keep_others-Unique :
      (exclude : ℤ) (cs : List Conn) → Unique cs → Unique (keep_others exclude cm cs)
  unfolding keep_others
  keep_others-Unique exclude [] u = tt
  keep_others-Unique exclude (d ∷ cs) u =
      ground (arith, keep_others-Unique exclude cs u.1, elem-keep_others exclude cs d)

  elem-user_targets : (us : List ℤ) (c : Conn) → elem c (user_targets us cm) ≡ reached c us cm
  unfolding user_targets get_connection
  elem-user_targets [] c = refl
  elem-user_targets (u ∷ us) c = ground (arith, elem-user_targets us c)

  -- A broadcast to rooms and to no users reaches, in a well-formed manager, each connection that
  -- sits in one of the rooms and is not the excluded user's, once though the rooms may overlap, and
  -- nobody else.
  pub target_conns_rooms :
      (msg : BroadcastMessage)
      → WellFormed cm
      → msg.target_users ≡ []
      → msg.target_rooms ≢ []
      → ((c : Conn)
          → elem c (target_conns msg cm) ≡ (
              seat_among (get c cm.connections) msg.target_rooms
              && not (shut_out msg.exclude_user (get c cm.connections))))
        × Unique (target_conns msg cm)
  unfolding target_conns get
  target_conns_rooms msg wf nobody somewhere =
      let marked = mark_rooms msg.target_rooms cm [] in
      let e : target_conns msg cm ≡ skip_excluded msg.exclude_user cm (keys marked) =
        ground arith in
      rw e (
        λ c. ground (
          arith,
          elem-skip_excluded msg.exclude_user (keys marked) c,
          elem-keys c marked,
          elem-mark_rooms wf msg.target_rooms [] c,
        ),
        skip_excluded-Unique msg.exclude_user (keys marked)
            (keys-Unique marked (mark_rooms-Distinct msg.target_rooms [] tt)),
      )

  -- A broadcast to neither users nor rooms reaches, in a well-formed manager, each connection that
  -- is held and is not the excluded user's, once, and nobody else.
  pub target_conns_all :
      (msg : BroadcastMessage)
      → WellFormed cm
      → msg.target_users ≡ []
      → msg.target_rooms ≡ []
      → ((c : Conn)
          → elem c (target_conns msg cm) ≡ (
              is_some (get c cm.connections)
              && not (shut_out msg.exclude_user (get c cm.connections))))
        × Unique (target_conns msg cm)
  unfolding target_conns get_all_connections
  target_conns_all msg wf nobody nowhere =
      let everybody = keys cm.connections in
      let e : target_conns msg cm ≡ (
          if ltb_ℤ (pos 0) msg.exclude_user
          then keep_others msg.exclude_user cm everybody
          else everybody) =
        ground arith in
      rw e (
        λ c.
            ground
              (arith, elem-keep_others msg.exclude_user everybody c, elem-keys c cm.connections),
        ground (
          arith,
          keep_others-Unique msg.exclude_user everybody,
          keys-Unique cm.connections wf.distinct_connections,
        ),
      )

  -- A broadcast to users reaches exactly the connections that the user map has for them; the rooms
  -- and the excluded user of the message count for nothing.
  pub target_conns_users :
      (msg : BroadcastMessage) (c : Conn)
      → msg.target_users ≢ []
      → elem c (target_conns msg cm) ≡ reached c msg.target_users cm
  unfolding target_conns
  target_conns_users msg c somebody =
      let e : target_conns msg cm ≡ user_targets msg.target_users cm = ground arith in
      rw e (elem-user_targets msg.target_users c)

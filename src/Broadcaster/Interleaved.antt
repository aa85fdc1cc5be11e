-- ===== src/Broadcaster/Interleaved.antt =====
-- server/gateway_ws/internal/manager/broadcaster.go: the choice of the targets while other goroutines
-- call the connection manager.
--
-- `processBroadcastMessage` takes the manager's lock once for each lookup, and anything may happen in
-- between: `view n` is the manager that its lookup number `n` sees.
pub mod Rooms
use zerogame.Shared.{
  ℕ, zero, suc, ◌+◌, ◌≡◌, refl, ◌≤◌, ◌<◌, inl, inr, ◌⊎◌, String, Bool, true, false, not, ◌&&◌, ◌||◌,
  none, some, List, [], ◌∷◌, length, ltb, elem, Unique, if◌then◌else◌, ◌==◌, nat_key, string_key,
  arith, Bool-cases, eq_of_==, ap, sym, ◌∙◌,
}
use zerogame.Shared.Int.{ℤ, pos, ltb_ℤ, int_key}
use zerogame.Shared.GoMap.{get, keys, is_some, Distinct, elem-keys, keys-Unique}
use zerogame.Connection.{
  Conn, ConnectionManager, RoomConns, new_connection_manager, get_connection, get_client_connection,
  get_room_connections, get_all_connections,
}
use zerogame.Connection.Invariant.{WellFormed, seat}
use zerogame.Connection.Lookups.{get_room_connections_exact}
use zerogame.Connection.Reach.{Reach, Reach-WellFormed}
use zerogame.Gateway.{BroadcastMessage}
use zerogame.Broadcaster.{
  target_conns, user_targets, mark_all, mark_rooms, skip_excluded, keep_others, is_excluded,
  is_other,
}
use zerogame.Broadcaster.Targets.{shut_out, elem-mark_all, mark_all-Distinct}

module _ (view : ℕ → ConnectionManager) where
  unfoldable pub users_over : ℕ → List ℤ → List Conn
  users_over n [] = []
  users_over n (u ∷ us) =
      let others = users_over (n + 1) us in
      elim (get_connection u (view n)) [ none ↦ others | some conn ↦ conn ∷ others ]

  unfoldable pub rooms_over : ℕ → List String → RoomConns → RoomConns
  rooms_over n [] marked = marked
  rooms_over n (r ∷ rs) marked =
      rooms_over (n + 1) rs (mark_all (get_room_connections r (view n)) marked)

  unfoldable pub skip_over : ℤ → ℕ → List Conn → List Conn
  skip_over exclude n [] = []
  skip_over exclude n (c ∷ cs) =
      let others = skip_over exclude (n + 1) cs in
      if ltb_ℤ (pos 0) exclude
      then (if is_excluded exclude (get_client_connection c (view n)) then others else c ∷ others)
      else c ∷ others

  unfoldable keep_over : ℤ → ℕ → List Conn → List Conn
  keep_over exclude n [] = []
  keep_over exclude n (c ∷ cs) =
      let others = keep_over exclude (n + 1) cs in
      if is_other exclude (get_client_connection c (view n)) then c ∷ others else others

  -- `targetConns`.
  unfoldable pub targets_over : BroadcastMessage → List Conn
  unfolding users_over rooms_over skip_over keep_over
  targets_over msg =
      if ltb 0 (length msg.target_users)
      then users_over 0 msg.target_users
      else if ltb 0 (length msg.target_rooms)
      then skip_over msg.exclude_user (length msg.target_rooms)
          (keys (rooms_over 0 msg.target_rooms []))
      else if ltb_ℤ (pos 0) msg.exclude_user
      then keep_over msg.exclude_user 1 (get_all_connections (view 0))
      else get_all_connections (view 0)

-- When nothing happens in between, these are the targets of the one manager.
module _ (cm : ConnectionManager) where
  users_still : (n : ℕ) (us : List ℤ) → users_over (λ k. cm) n us ≡ user_targets us cm
  unfolding users_over user_targets
  users_still n [] = refl
  users_still n (u ∷ us) = ground (arith, users_still (n + 1) us)

  rooms_still :
      (n : ℕ) (rs : List String) (marked : RoomConns)
      → rooms_over (λ k. cm) n rs marked ≡ mark_rooms rs cm marked
  unfolding rooms_over mark_rooms
  rooms_still n [] marked = refl
  rooms_still n (r ∷ rs) marked = rooms_still (n + 1) rs _

  skip_still :
      (exclude : ℤ) (n : ℕ) (cs : List Conn)
      → skip_over (λ k. cm) exclude n cs ≡ skip_excluded exclude cm cs
  unfolding skip_over skip_excluded
  skip_still exclude n [] = refl
  skip_still exclude n (c ∷ cs) = ground (arith, skip_still exclude (n + 1) cs)

  keep_still :
      (exclude : ℤ) (n : ℕ) (cs : List Conn)
      → keep_over (λ k. cm) exclude n cs ≡ keep_others exclude cm cs
  unfolding keep_over keep_others
  keep_still exclude n [] = refl
  keep_still exclude n (c ∷ cs) = ground (arith, keep_still exclude (n + 1) cs)

  pub targets_still : (msg : BroadcastMessage) → targets_over (λ k. cm) msg ≡ target_conns msg cm
  unfolding targets_over target_conns
  targets_still msg = ground (
    arith,
    users_still 0 msg.target_users,
    rooms_still 0 msg.target_rooms [],
    skip_still msg.exclude_user (length msg.target_rooms)
        (keys (mark_rooms msg.target_rooms cm [])),
    keep_still msg.exclude_user 1 (get_all_connections cm),
  )

-- ===== src/Broadcaster/Interleaved/Rooms.antt =====
-- The targets of a broadcast to rooms in broadcaster.go, while people come and go.
use zerogame.Shared.{
  ℕ, ◌+◌, ◌≡◌, ◌≢◌, ◌≤◌, ◌<◌, inl, inr, ◌⊎◌, String, Bool, true, false, List, [], ◌∷◌, length, elem,
  Unique, nat_key, string_key, arith, Bool-cases, eq_of_==, ap, sym, ◌∙◌,
}
use zerogame.Shared.Int.{ℤ, int_key}
use zerogame.Shared.GoMap.{get, keys, is_some, Distinct, elem-keys, keys-Unique}
use zerogame.Connection.{
  Conn, ConnectionManager, RoomConns, new_connection_manager, get_client_connection,
  get_room_connections,
}
use zerogame.Connection.Invariant.{WellFormed, seat}
use zerogame.Connection.Lookups.{get_room_connections_exact}
use zerogame.Connection.Reach.{Reach, Reach-WellFormed}
use zerogame.Gateway.{BroadcastMessage}
use zerogame.Broadcaster.{target_conns, mark_all}
use zerogame.Broadcaster.Targets.{shut_out, elem-mark_all, mark_all-Distinct}
use zerogame.Broadcaster.Interleaved.{rooms_over, skip_over, targets_over, targets_still}

-- Somebody who stays in a room, or who was in one at some moment.
nothing_marked : (c : Conn) → is_some (get {V = Bool} c []) ≢ true
unfolding get
nothing_marked c m = absurd (cc m)

module _ (view : ℕ → ConnectionManager) (wf : (n : ℕ) → WellFormed (view n)) where
  abbrev seat_at : ℕ → Conn → String → Bool
  seat_at n c r = seat (get c (view n).connections) r

  rooms_over-Distinct :
      (n : ℕ) (rs : List String) (marked : RoomConns)
      → Distinct marked
      → Distinct (rooms_over view n rs marked)
  unfolding rooms_over
  rooms_over-Distinct n [] marked d = d
  rooms_over-Distinct n (r ∷ rs) marked d =
      rooms_over-Distinct (n + 1) rs _
        (mark_all-Distinct (get_room_connections r (view n)) marked d)

  stays_marked :
      (c : Conn) (n : ℕ) (rs : List String) (marked : RoomConns)
      → is_some (get c marked) ≡ true
      → is_some (get c (rooms_over view n rs marked)) ≡ true
  unfolding rooms_over
  stays_marked c n [] marked m = m
  stays_marked c n (r ∷ rs) marked m =
      stays_marked c (n + 1) rs _
        (ground (arith, elem-mark_all (get_room_connections r (view n)) marked c))

  stays_seated :
      (c : Conn) (r : String)
      → ((n : ℕ) → seat_at n c r ≡ true)
      → (n : ℕ) (rs : List String) (marked : RoomConns) → elem r rs ≡ true
      → is_some (get c (rooms_over view n rs marked)) ≡ true
  unfolding rooms_over
  stays_seated c r sits n [] marked i = absurd (cc i)
  stays_seated c r sits n (q ∷ rs) marked i = elim (Bool-cases (elem r rs)) [
    | inl later ↦ stays_seated c r sits (n + 1) rs _ later
    | inr absent ↦
        let same : q ≡ r = eq_of_== {K = String} (ground arith) in
        stays_marked c (n + 1) rs _ (
          ground (
            arith,
            elem-mark_all (get_room_connections q (view n)) marked c,
            (get_room_connections_exact (view n) q (wf n)).0 c,
            ap (λ x. seat_at n c x) same,
            sits n,
          ))
  ]

  was_seated :
      (c : Conn) (n : ℕ) (rs : List String) (marked : RoomConns)
      → is_some (get c (rooms_over view n rs marked)) ≡ true
      → (is_some (get c marked) ≡ true)
        ⊎ ((k : ℕ) × (r : String) × (n ≤ k)
            × (k < n + length rs)
            × (elem r rs ≡ true)
            × (seat_at k c r ≡ true))
  unfolding rooms_over
  was_seated c n [] marked m = inl m
  was_seated c n (r ∷ rs) marked m =
      let room = get_room_connections r (view n) in
      elim (was_seated c (n + 1) rs (mark_all room marked) m) [
        | inr (k, q, low, high, i, sat) ↦ inr (k, q, omega arith, omega arith, ground arith, sat)
        | inl now ↦ elim (Bool-cases (elem c room)) [
          | inl listed ↦ inr (
            n,
            r,
            omega arith,
            omega arith,
            ground arith,
            sym ((get_room_connections_exact (view n) r (wf n)).0 c) ∙ listed,
          )
          | inr unlisted ↦ inl (ground (arith, elem-mark_all room marked c))
        ]
      ]

  not_skipped :
      (exclude : ℤ) (c : Conn)
      → ((n : ℕ) → shut_out exclude (get c (view n).connections) ≡ false)
      → (n : ℕ) (cs : List Conn) → elem c cs ≡ true
      → elem c (skip_over view exclude n cs) ≡ true
  unfolding skip_over get_client_connection
  not_skipped exclude c free n [] i = absurd (cc i)
  not_skipped exclude c free n (d ∷ cs) i =
      ground (arith, not_skipped exclude c free (n + 1) cs, free n)

  was_free :
      (exclude : ℤ) (c : Conn) (n : ℕ) (cs : List Conn)
      → elem c (skip_over view exclude n cs) ≡ true
      → (elem c cs ≡ true)
        × ((m : ℕ) × (n ≤ m) × (shut_out exclude (get c (view m).connections) ≡ false))
  unfolding skip_over get_client_connection
  was_free exclude c n [] i = absurd (cc i)
  was_free exclude c n (d ∷ cs) i = elim (Bool-cases (elem c (skip_over view exclude (n + 1) cs))) [
    | inl later ↦
        let (there, (m, low, free)) = was_free exclude c (n + 1) cs later in
        (ground arith, (m, omega arith, free))
    | inr absent ↦ (ground arith, (n, omega arith, ground arith))
  ]

  skip_over-Unique :
      (exclude : ℤ) (n : ℕ) (cs : List Conn) → Unique cs → Unique (skip_over view exclude n cs)
  unfolding skip_over
  skip_over-Unique exclude n [] u = tt
  skip_over-Unique exclude n (d ∷ cs) u =
      ground (arith, skip_over-Unique exclude (n + 1) cs u.1, skipped d (n + 1) cs)
    where
      skipped :
          (d : Conn) (m : ℕ) (ds : List Conn)
          → elem d ds ≡ false
          → elem d (skip_over view exclude m ds) ≡ false
      skipped d m ds absent = elim (Bool-cases (elem d (skip_over view exclude m ds))) [
        | inl i ↦ absurd (cc (absent, (was_free exclude d m ds i).0))
        | inr f ↦ f
      ]

-- A broadcast to rooms and to no users, whose lookups see any sequence of managers, each as
-- `NewConnectionManager` and calls leave it in which no connection is added while it is held and
-- every room joined has a name: whoever sits in one of the rooms at every lookup, and is never the excluded user's, is a
-- target; every target sat in one of the rooms at one of the lookups of the rooms, and was not the
-- excluded user's at a later lookup; and no target stands twice. If the lookups see one manager,
-- the targets are the ones of that manager.
pub targets_over_rooms :
    (max : ℤ) (view : ℕ → ConnectionManager) (msg : BroadcastMessage)
    → ((n : ℕ) → Reach (new_connection_manager max) (view n))
    → msg.target_users ≡ []
    → 0 < length msg.target_rooms
    → let targets = targets_over view msg in
      let shut : ℕ → Conn → Bool = λ n c. shut_out msg.exclude_user (get c (view n).connections) in
      ((c : Conn) (r : String)
        → elem r msg.target_rooms ≡ true
        → ((n : ℕ) → seat (get c (view n).connections) r ≡ true)
        → ((n : ℕ) → shut n c ≡ false)
        → elem c targets ≡ true)
      × ((c : Conn)
          → elem c targets ≡ true
          → (k m : ℕ) × (r : String) × (k < length msg.target_rooms)
            × (length msg.target_rooms ≤ m)
            × (elem r msg.target_rooms ≡ true)
            × (seat (get c (view k).connections) r ≡ true)
            × (shut m c ≡ false))
      × Unique targets
      × ((cm : ConnectionManager) → targets_over (λ n. cm) msg ≡ target_conns msg cm)
unfolding targets_over
targets_over_rooms max view msg reached no_users some_rooms =
    let wf : (n : ℕ) → WellFormed (view n) = λ n. Reach-WellFormed max (reached n) in
    let rs = msg.target_rooms in
    let marked = rooms_over view 0 rs [] in
    let same : targets_over view msg ≡ skip_over view msg.exclude_user (length rs) (keys marked) =
      ground (arith, no_users) in
    rw same (
      λ c r i sits free.
          not_skipped view wf msg.exclude_user c free (length rs) (keys marked)
            (elem-keys c marked ∙ stays_seated view wf c r sits 0 rs [] i),
      λ c i.
          let (there, (m, low, free)) =
            was_free view wf msg.exclude_user c (length rs) (keys marked) i in
          elim (was_seated view wf c 0 rs [] (sym (elem-keys c marked) ∙ there)) [
            | inl marked_before ↦ absurd (nothing_marked c marked_before)
            | inr (k, r, start, high, among, sat) ↦ (k, m, r, omega arith, low, among, sat, free)
          ],
      skip_over-Unique view wf msg.exclude_user (length rs) (keys marked)
          (keys-Unique marked (rooms_over-Distinct view wf 0 rs [] tt)),
      λ cm. targets_still cm msg,
    )

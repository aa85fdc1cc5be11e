-- ===== src/Store/Redis.antt =====
-- pkg/db/redis/redis.go: the wrapper of go-redis and redislock.
--
-- The two libraries and the server behind them are the parameters `Client` and `Locker`: a method
-- of theirs takes the server's state, and returns a value or an error and the state after it. The
-- context and the options of `redis.NewClient` are not modelled. A duration is in nanoseconds.
pub mod Objects
pub mod Fields
mod Tests
use zerogame.Shared.{ℕ, String, Bool, true, false, Option, none, some, List, [], ◌∷◌, if◌then◌else◌}
use zerogame.Shared.Int.{ℤ, pos, ltb_ℤ}
use zerogame.Shared.Decimal.{cat}
use zerogame.Message.{Bytes}

pub data Result (E A : Type 0) : Type 0 where
  ok : A → Result E A
  err : E → Result E A

abbrev pub Duration : Type 0
Duration = ℤ

module _ (E V S Lock : Type 0) where
  abbrev Reply : Type 0 → Type 0
  Reply A = S → Result E A × S

  -- `hset_nx` and `expire_seconds` are the commands as a script calls them; `eval_error` is the
  -- error of an `EVAL` that does not run its script.
  pub record Client : Type 0 where
    pub ping : Reply String
    pub get : String → Reply String
    pub get_bytes : String → Reply Bytes
    pub set : String → V → Duration → Reply String
    pub set_bytes : String → Bytes → Duration → Reply String
    pub del : List String → Reply ℤ
    pub exists : List String → Reply ℤ
    pub incr : String → Reply ℤ
    pub expire : String → Duration → Reply Bool
    pub ttl : String → Reply Duration
    pub s_add : String → List V → Reply ℤ
    pub s_rem : String → List V → Reply ℤ
    pub s_is_member : String → V → Reply Bool
    pub s_members : String → Reply (List String)
    pub s_card : String → Reply ℤ
    pub h_set : String → List V → Reply ℤ
    pub h_get : String → String → Reply String
    pub h_get_all : String → Reply (List (String × String))
    pub h_incr_by : String → String → ℤ → Reply ℤ
    pub eval_error : S → Option E
    pub hset_nx : String → String → V → S → Bool × S
    pub expire_seconds : String → ℤ → S → S
    pub seconds : Duration → ℤ
    pub close : Reply (Unit {0})
    pub marshal : V → Result E Bytes
    pub unmarshal : Bytes → V → Result E (Unit {0}) × V

  -- `none` tries once, `some n` retries `n` times, 100 ms later each time.
  pub record Locker : Type 0 where
    pub obtain : String → Duration → Option ℤ → Reply Lock
    pub refresh : Lock → Duration → Reply (Unit {0})
    pub release : Lock → Reply (Unit {0})
    pub is_not_obtained : E → Bool
    pub is_not_held : E → Bool

  -- `ErrLockNotObtained`, `ErrLockReleased`, the error of `NewRedisClient`, and a library's own.
  pub data RedisError : Type 0 where
    lock_not_obtained lock_released : RedisError
    ping_failed library : E → RedisError

  abbrev R : Type 0 → Type 0
  R A = S → Result RedisError A × S

  abbrev raised : {A : Type 0} → Result E A × S → Result RedisError A × S
  raised (ok a, s) = (ok a, s)
  raised (err e, s) = (err (library e), s)

  -- `.Err()`.
  abbrev only_error : {A : Type 0} → Result E A × S → Result RedisError (Unit {0}) × S
  only_error (ok a, s) = (ok tt, s)
  only_error (err e, s) = (err (library e), s)

  module _ (client : Client) (locker : Locker) where
    abbrev pinged : Result E String × S → Result RedisError (Unit {0}) × S
    pinged (ok pong, s) = (ok tt, s)
    pinged (err e, s) = (err (ping_failed e), s)

    unfoldable new_redis_client : R (Unit {0})
    new_redis_client s = pinged (client.ping s)

    unfoldable get : String → R String
    get key s = raised (client.get key s)

    unfoldable set : String → V → Duration → R (Unit {0})
    set key value expiration s = only_error (client.set key value expiration s)

    unfoldable del : List String → R (Unit {0})
    del keys s = only_error (client.del keys s)

    -- The Boolean comes with the error too.
    abbrev counted : Result E ℤ × S → (Bool × Option E) × S
    counted (ok n, s) = ((ltb_ℤ (pos 0) n, none), s)
    counted (err e, s) = ((false, some e), s)

    unfoldable exists : String → S → (Bool × Option E) × S
    exists key s = counted (client.exists (key ∷ []) s)

    unfoldable incr : String → R ℤ
    incr key s = raised (client.incr key s)

    abbrev put_bytes : String → Duration → Result E Bytes → R (Unit {0})
    put_bytes key expiration (err e) s = (err (library e), s)
    put_bytes key expiration (ok data') s = only_error (client.set_bytes key data' expiration s)

    unfoldable pub set_obj : String → V → Duration → R (Unit {0})
    set_obj key obj expiration s = put_bytes key expiration (client.marshal obj) s

    abbrev filled : Result E (Unit {0}) × V → S → (Result RedisError (Unit {0}) × V) × S
    filled (ok u, obj) s = ((ok tt, obj), s)
    filled (err e, obj) s = ((err (library e), obj), s)

    abbrev decoded : V → Result E Bytes × S → (Result RedisError (Unit {0}) × V) × S
    decoded obj (err e, s) = ((err (library e), obj), s)
    decoded obj (ok data', s) = filled (client.unmarshal data' obj) s

    -- With what `obj` points at afterwards.
    unfoldable pub get_obj : String → V → S → (Result RedisError (Unit {0}) × V) × S
    get_obj key obj s = decoded obj (client.get_bytes key s)

    unfoldable set_expire : String → Duration → R (Unit {0})
    set_expire key expiration s = only_error (client.expire key expiration s)

    unfoldable get_ttl : String → R Duration
    get_ttl key s = raised (client.ttl key s)

    unfoldable s_add : String → List V → R (Unit {0})
    s_add key members s = only_error (client.s_add key members s)

    unfoldable s_rem : String → List V → R (Unit {0})
    s_rem key members s = only_error (client.s_rem key members s)

    unfoldable s_is_member : String → V → R Bool
    s_is_member key member s = raised (client.s_is_member key member s)

    unfoldable s_members : String → R (List String)
    s_members key s = raised (client.s_members key s)

    unfoldable s_card : String → R ℤ
    s_card key s = raised (client.s_card key s)

    unfoldable h_set : String → List V → R (Unit {0})
    h_set key values s = only_error (client.h_set key values s)

    unfoldable h_get : String → String → R String
    h_get key field' s = raised (client.h_get key field' s)

    unfoldable h_get_all : String → R (List (String × String))
    h_get_all key s = raised (client.h_get_all key s)

    unfoldable h_incr_by : String → String → ℤ → R ℤ
    h_incr_by key field' n s = raised (client.h_incr_by key field' n s)

    -- `pipe.Exec`: both commands run, and the first error is returned.
    abbrev first_error : Result E ℤ → Result E Bool × S → Result RedisError (Unit {0}) × S
    first_error (err e) (second, s) = (err (library e), s)
    first_error (ok n) second = only_error second

    unfoldable h_set_with_ttl : String → Duration → List V → R (Unit {0})
    h_set_with_ttl key expiration values s =
        let (written, s') = client.h_set key values s in
        first_error written (client.expire key expiration s')

    -- The script: the expiry is set when the field was.
    abbrev expire_new : String → ℤ → Bool × S → S
    expire_new key n (true, s) = client.expire_seconds key n s
    expire_new key n (false, s) = s

    unfoldable pub h_set_nx_with_ttl : String → String → V → Duration → R (Unit {0})
    h_set_nx_with_ttl key field' value expiration s = elim (client.eval_error s) [
      | some e ↦ (err (library e), s)
      | none ↦
          (ok tt, expire_new key (client.seconds expiration) (client.hset_nx key field' value s))
    ]

    abbrev obtained : Result E Lock × S → Result RedisError Lock × S
    obtained (ok lock, s) = (ok lock, s)
    obtained (err e, s) =
        if locker.is_not_obtained e then (err lock_not_obtained, s) else (err (library e), s)

    unfoldable pub get_lock : String → Duration → ℤ → R Lock
    get_lock key ttl retry_count s = obtained (
        locker.obtain (cat "lock:" key) ttl
          (if ltb_ℤ (pos 0) retry_count then some retry_count else none) s)

    -- `none` is a nil lock.
    unfoldable refresh_lock : Option Lock → Duration → R (Unit {0})
    refresh_lock none ttl s = (err lock_released, s)
    refresh_lock (some lock) ttl s = raised (locker.refresh lock ttl s)

    abbrev let_go : Result E (Unit {0}) × S → Result RedisError (Unit {0}) × S
    let_go (ok u, s) = (ok tt, s)
    let_go (err e, s) = if locker.is_not_held e then (ok tt, s) else (err (library e), s)

    unfoldable pub release_lock : Option Lock → R (Unit {0})
    release_lock none s = (ok tt, s)
    release_lock (some lock) s = let_go (locker.release lock s)

    unfoldable close : R (Unit {0})
    close s = raised (client.close s)

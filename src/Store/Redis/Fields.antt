-- ===== src/Store/Redis/Fields.antt =====
-- The hash fields of redis.go that are set with an expiry.
use zerogame.Shared.{ℕ, ◌≡◌, refl, ◌<◌, String, true, Option, none, some}
use zerogame.Shared.Int.{pos}
use zerogame.Store.Redis.{ok, Client, Locker, h_set_nx_with_ttl}

-- What the code relies on in Redis and in `time`: a field that a hash lacks is set by `HSETNX`, a key
-- given an expiry of 0 seconds is deleted, its fields with it, and less than a second has no whole
-- second. `field_of` is the field that the server has under a key.
pub record IsServer {E V S Lock : Type 0} (client : Client E V S Lock)
    (field_of : String → String → S → Option V) : Type 0 where
  pub sets :
      (k f : String) (v : V) (s : S)
      → field_of k f s ≡ none
      → (s' : S) × (client.hset_nx k f v s ≡ (true, s')) × (field_of k f s' ≡ some v)
  pub expires : (k f : String) (s : S) → field_of k f (client.expire_seconds k (pos 0) s) ≡ none
  pub no_second : (n : ℕ) → n < 1000000000 → client.seconds (pos n) ≡ pos 0

module _ {E V S Lock : Type 0} (client : Client E V S Lock) (locker : Locker E V S Lock)
    {field_of : String → String → S → Option V} (laws : IsServer client field_of) where
  -- `HSetNXWithTTL` of a field that is not there, with an expiry of less than a second, returns no
  -- error, and the field is not there afterwards: the script sets an expiry of 0 seconds.
  h_set_nx_with_ttl_drops :
      (key field' : String) (value : V) (n : ℕ) (s : S)
      → n < 1000000000
      → client.eval_error s ≡ none
      → field_of key field' s ≡ none
      → let (result, s') = h_set_nx_with_ttl E V S Lock client locker key field' value (pos n) s in
        (result ≡ ok tt) × (field_of key field' s' ≡ none)
  unfolding h_set_nx_with_ttl
  h_set_nx_with_ttl_drops key field' value n s short runs fresh =
      let (s', set, there) = laws.sets key field' value s fresh in
      rw (runs, h_set_nx_with_ttl, set, laws.no_second n short) (refl, laws.expires key field' s')

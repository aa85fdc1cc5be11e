-- ===== src/Store/Redis/Objects.antt =====
-- `SetObj` and `GetObj`.
use zerogame.Shared.{◌≡◌, refl, String}
use zerogame.Message.{Bytes}
use zerogame.Store.Redis.{ok, err, Duration, Client, Locker, library, set_obj, get_obj}

module _ {E V S Lock : Type 0} (client : Client E V S Lock) (locker : Locker E V S Lock) where
  -- An object that encodes to a text that the server takes is read back by `GetObj` under the same
  -- key as what the text decodes to; and one that does not encode is refused with that error, and
  -- the server is not asked.
  get_obj-set_obj :
      (key : String) (obj target : V) (expiration : Duration) (s : S)
      → ((b : Bytes) (answer : String)
          → (client.set_bytes key b expiration s).0 ≡ ok answer
          → (client.get_bytes key (client.set_bytes key b expiration s).1).0 ≡ ok b)
      → ((b : Bytes) (obj' : V) (answer : String)
          → client.marshal obj ≡ ok b
          → (client.set_bytes key b expiration s).0 ≡ ok answer
          → client.unmarshal b target ≡ (ok tt, obj')
          → let (stored, s') = set_obj E V S Lock client locker key obj expiration s in
            (stored ≡ ok tt) × ((get_obj E V S Lock client locker key target s').0 ≡ (ok tt, obj')))
        × ((e : E)
            → client.marshal obj ≡ err e
            → set_obj E V S Lock client locker key obj expiration s ≡ (err (library e), s))
  unfolding set_obj get_obj
  get_obj-set_obj key obj target expiration s law = (
    λ b obj' answer encodes takes decodes.
        rw (encodes, takes, law b answer takes, decodes) (refl, refl),
    λ e bad. rw bad refl,
  )

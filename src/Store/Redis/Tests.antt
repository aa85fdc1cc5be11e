-- ===== src/Store/Redis/Tests.antt =====
-- redis.go over a server of association lists.
use zerogame.Shared.{
  ℕ, ◌<◌, ◌≡◌, ap, arith, String, Bool, true, false, List, [], ◌∷◌, none, some, Option, string_key,
  nat_key, if◌then◌else◌, ◌==◌, ℕ_discrete,
}
use Prim.Native.Nat.{◌/◌}
use zerogame.Shared.Int.{ℤ, pos, negsuc}
use zerogame.Shared.GoMap.{get, put, delete, get-put, get-delete}
use zerogame.Message.{Bytes}
use zerogame.Store.Redis.{Result, ok, err, Duration, Client}
use zerogame.Store.Redis.Fields.{IsServer}

data Failure : Type 0 where
  missing taken lost : Failure

record Server : Type 0 where
  texts : List (String × Bytes)
  hashes : List (String × List (String × ℕ))

record Token : Type 0 where
  key : String
  number : ℕ

abbrev Answer : Type 0 → Type 0
Answer A = Server → Result Failure A × Server

abbrev constant : {A : Type 0} → A → Answer A
constant a s = (ok a, s)

abbrev found : {A : Type 0} → Option A → Result Failure A
found none = err missing
found (some a) = ok a

abbrev or_empty : Option (List (String × ℕ)) → List (String × ℕ)
or_empty none = []
or_empty (some m) = m

abbrev field_of : String → String → Server → Option ℕ
field_of k f s = get f (or_empty (get k s.hashes))

abbrev set_field : String → String → ℕ → Server → Server
set_field k f v s = record s { hashes = put k (put f v (or_empty (get k s.hashes))) s.hashes }

abbrev set_new : Option ℕ → String → String → ℕ → Server → Bool × Server
set_new none k f v s = (true, set_field k f v s)
set_new (some w) k f v s = (false, s)

abbrev expire_at : String → ℤ → Server → Server
expire_at k (pos n) s = if n == 0 then record s { hashes = delete k s.hashes } else s
expire_at k (negsuc n) s = record s { hashes = delete k s.hashes }

abbrev first_byte : Bytes → ℕ → Result Failure (Unit {0}) × ℕ
first_byte [] v = (err missing, v)
first_byte (b ∷ bs) v = (ok tt, b)

abbrev whole_seconds : Duration → ℤ
whole_seconds (pos n) = pos (n / 1000000000)
whole_seconds (negsuc n) = pos 0

abbrev client : Client Failure ℕ Server Token
client = record {
  ping = constant "PONG";
  get = λ k. constant "";
  get_bytes = λ k s. (found (get k s.texts), s);
  set = λ k v d. constant "OK";
  set_bytes = λ k b d s. (ok "OK", record s { texts = put k b s.texts });
  del = λ ks. constant (pos 0);
  exists = λ ks. constant (pos 0);
  incr = λ k. constant (pos 1);
  expire = λ k d. constant true;
  ttl = λ k. constant (pos 0);
  s_add = λ k vs. constant (pos 0);
  s_rem = λ k vs. constant (pos 0);
  s_is_member = λ k v. constant false;
  s_members = λ k. constant [];
  s_card = λ k. constant (pos 0);
  h_set = λ k vs. constant (pos 0);
  h_get = λ k f. constant "";
  h_get_all = λ k. constant [];
  h_incr_by = λ k f n. constant n;
  eval_error = λ s. none;
  hset_nx = λ k f v s. set_new (field_of k f s) k f v s;
  expire_seconds = expire_at;
  seconds = whole_seconds;
  close = constant tt;
  marshal = λ v. ok (v ∷ []);
  unmarshal = first_byte;
}

get-put_same :
    {A : Type 0} (k : String) (a : A) (m : List (String × A)) → get k (put k a m) ≡ some a
get-put_same k a m = ground (arith, get-put k k a m)

get-delete_same : {A : Type 0} (k : String) (m : List (String × A)) → get k (delete k m) ≡ none
get-delete_same k m = ground (arith, get-delete k k m)

zero_seconds : (n : ℕ) → n < 1000000000 → n / 1000000000 ≡ 0
zero_seconds n short = ground arith

get_new_field : (k f : String) (v : ℕ) (s : Server) → field_of k f (set_field k f v s) ≡ some v
get_new_field k f v s =
    let old = or_empty (get k s.hashes) in
    ground (arith, get-put k k (put f v old) s.hashes, get-put f f v old)

client-IsServer : IsServer client field_of
unfolding get ℕ_discrete
client-IsServer = record {
  sets = λ k f v s e. (set_field k f v s, ap (λ o. set_new o k f v s) e, get_new_field k f v s);
  expires = λ k f s. ap (λ o. get f (or_empty o)) (get-delete_same k s.hashes);
  no_second = λ n short. ap pos (zero_seconds n short);
}

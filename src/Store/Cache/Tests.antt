-- ===== src/Store/Cache/Tests.antt =====
-- freecache.go over a cache that is an association list of texts.
use zerogame.Shared.{ℕ, String, true, List, [], ◌∷◌, none, some, Option, string_key}
use zerogame.Shared.GoMap.{get, put, delete}
use zerogame.Message.{Bytes}
use zerogame.HttpGateway.{Fallible, success, failed}
use zerogame.Store.Cache.{CacheLib, Fc, Loader}

abbrev Entries : Type 0
Entries = List (String × Bytes)

abbrev found : Option Bytes → Fallible Bytes
found none = failed "Entry not found"
found (some b) = success b

-- A value is the number of coins, and its text is one byte.
abbrev coins : Bytes → ℕ → Fallible (Unit {0}) × ℕ
coins [] v = (failed "EOF", v)
coins (b ∷ bs) v = (success tt, b)

abbrev lib : CacheLib ℕ Entries
lib = record {
  new_cache = λ n. [];
  set = λ k b ttl c. (success tt, put k b c);
  find = λ k c. (found (get k c), c);
  del = λ k c. (true, delete k c);
  marshal = λ v. success (v ∷ []);
  unmarshal = coins;
}

abbrev at_start : Fc ℕ Entries
at_start = record { store = []; target = 0; loads = 0 }

abbrev no_store : Loader ℕ Entries
no_store n v = (failed "connection refused", v)

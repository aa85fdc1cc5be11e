-- ===== src/Store/Cache/Loading.antt =====
-- What `GetOrLoadCache` loads, keeps and returns.
use zerogame.Shared.{◌+◌, ◌≡◌, String}
use zerogame.Shared.Int.{ℤ}
use zerogame.HttpGateway.{Fallible}
use zerogame.Store.Cache.{CacheLib, Fc, Loader, Flight, get_cache, get_or_load_cache}

-- What the code relies on in `freecache`: reading changes no more than the statistics.
pub record IsCache {V Store : Type 0} (lib : CacheLib V Store) : Type 0 where
  pub reading : (k j : String) (c : Store) → (lib.find k (lib.find j c).1).0 ≡ (lib.find k c).0

module _ {V Store : Type 0} (lib : CacheLib V Store) (k : String) (ttl : ℤ) where
  abbrev lookup : Fc V Store → Fallible (Unit {0}) × Fc V Store
  lookup = get_cache V Store lib k

  abbrev pub or_load :
      Loader V Store → Flight V Store → Fc V Store → Fallible (Unit {0}) × Fc V Store
  or_load = get_or_load_cache V Store lib k ttl

  abbrev looked : Fc V Store → Store
  looked s = (lib.find k s.store).1

  -- The state after the two lookups that find nothing and one call of the loader.
  abbrev loaded : V → Fc V Store → Fc V Store
  loaded v s = record {
    store = (lib.find k (lib.find k s.store).1).1;
    target = v;
    loads = s.loads + 1;
  }

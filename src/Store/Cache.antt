-- ===== src/Store/Cache.antt =====
-- pkg/db/cache/freecache.go: a cache of JSON texts that loads what it misses.
--
-- `freecache` and `jsoniter` are the parameter `CacheLib`. `v` is a pointer that the caller passes
-- in: what it points at is part of the state, and a decoder may change it even when it fails. The
-- loader's result depends on how often it was called, and it may write through `v` too.
-- `singleflight` either runs the function or hands over what another caller's run returned.
pub mod Loading
mod Tests
use zerogame.Shared.{ℕ, ◌+◌, ◌*◌, String, Bool, List, []}
use zerogame.Shared.Int.{ℤ}
use zerogame.Shared.Decimal.{cat}
use zerogame.Message.{Bytes}
use zerogame.HttpGateway.{Fallible, success, failed}

module _ (V Store : Type 0) where
  pub record CacheLib : Type 0 where
    pub new_cache : ℕ → Store
    pub set : String → Bytes → ℤ → Store → Fallible (Unit {0}) × Store
    pub find : String → Store → Fallible Bytes × Store
    pub del : String → Store → Bool × Store
    pub marshal : V → Fallible Bytes
    pub unmarshal : Bytes → V → Fallible (Unit {0}) × V

  -- The cache, what `v` points at, and the number of calls of the loader.
  pub record Fc : Type 0 where
    pub store : Store
    pub target : V
    pub loads : ℕ

  -- The `interface{}` that a loader returns: `v` itself, or some other value.
  pub data Loaded : Type 0 where
    itself : Loaded
    other : V → Loaded

  abbrev pub Loader : Type 0
  Loader = ℕ → V → Fallible Loaded × V

  -- `sf.Do`: this caller runs the function, or it gets the value and the error of another's run.
  pub data Flight : Type 0 where
    runs : Flight
    joins : Fallible V → Flight

  abbrev C : Type 0 → Type 0
  C A = Fc → Fallible A × Fc

  abbrev bytes_of : Fallible Bytes → Bytes
  bytes_of (success b) = b
  bytes_of (failed e) = []

  abbrev value_of : Loaded → V → V
  value_of itself v = v
  value_of (other d) v = d

  module _ (lib : CacheLib) where
    unfoldable new_free_cache : ℕ → Store
    new_free_cache size_mb = lib.new_cache (size_mb * 1024 * 1024)

    abbrev into_target : Fallible (Unit {0}) × V → C (Unit {0})
    into_target (r, v) s = (r, record s { target = v })

    abbrev into_store : Fallible (Unit {0}) × Store → C (Unit {0})
    into_store (r, store) s = (r, record s { store = store })

    abbrev write : String → ℤ → Fallible Bytes → C (Unit {0})
    write k ttl_seconds (failed e) s = (failed (cat "json-iterator marshal error: " e), s)
    write k ttl_seconds (success vb) s = into_store (lib.set k vb ttl_seconds s.store) s

    unfoldable pub set_cache : String → V → ℤ → C (Unit {0})
    set_cache k v ttl_seconds s = write k ttl_seconds (lib.marshal v) s

    abbrev read_into : Fallible Bytes × Store → C (Unit {0})
    read_into (failed e, store) s = (failed e, record s { store = store })
    read_into (success vb, store) s =
        into_target (lib.unmarshal vb s.target) (record s { store = store })

    unfoldable pub get_cache : String → C (Unit {0})
    get_cache k s = read_into (lib.find k s.store) s

    unfoldable del_cache : String → Fc → Bool × Fc
    del_cache k s = let (there, store) = lib.del k s.store in (there, record s { store = store })

    abbrev kept : Loaded → Fallible (Unit {0}) × Fc → Fallible Loaded × Fc
    kept data' (success u, s) = (success data', s)
    kept data' (failed e, s) = (failed e, s)

    abbrev pub keep : String → ℤ → Fallible Loaded × V → C Loaded
    keep k ttl_seconds (failed e, v) s = (failed e, record s { target = v })
    keep k ttl_seconds (success data', v) s =
        kept data' (set_cache k (value_of data' v) ttl_seconds (record s { target = v }))

    abbrev load : String → ℤ → Loader → Fallible (Unit {0}) × Fc → Fallible Loaded × Fc
    load k ttl_seconds loader (success u, s) = (success itself, s)
    load k ttl_seconds loader (failed e, s) =
        keep k ttl_seconds (loader s.loads s.target) (record s { loads = s.loads + 1 })

    abbrev fly : String → ℤ → Loader → Flight → C Loaded
    fly k ttl_seconds loader runs s = load k ttl_seconds loader (get_cache k s)
    fly k ttl_seconds loader (joins (success v)) s = (success (other v), s)
    fly k ttl_seconds loader (joins (failed e)) s = (failed e, s)

    abbrev pub hand_over : Fallible Loaded × Fc → Fallible (Unit {0}) × Fc
    hand_over (failed e, s) = (failed e, s)
    hand_over (success itself, s) = (success tt, s)
    hand_over (success (other v), s) =
        into_target (lib.unmarshal (bytes_of (lib.marshal v)) s.target) s

    abbrev on_miss :
        String → ℤ → Loader → Flight → Fallible (Unit {0}) × Fc → Fallible (Unit {0}) × Fc
    on_miss k ttl_seconds loader flight (success u, s) = (success tt, s)
    on_miss k ttl_seconds loader flight (failed e, s) =
        hand_over (fly k ttl_seconds loader flight s)

    unfoldable pub get_or_load_cache : String → ℤ → Loader → Flight → C (Unit {0})
    unfolding get_cache set_cache
    get_or_load_cache k ttl_seconds loader flight s =
        on_miss k ttl_seconds loader flight (get_cache k s)

-- ===== src/Cache.antt =====
-- internal/cache: the cache in memory, over the LRU cache of a library, the cache in Redis, over its
-- client, and the one that keeps nothing. Times are nanoseconds.
pub mod Expiry
use dnsmon.Base.{ℕ, ◌+◌, Option, none, some, Text, bytes, is_empty, text_eq, ltb, if◌then◌else◌}
use dnsmon.World as World
use dnsmon.World.{Result, ok, err, failed, wrap, Error, Action, ◌>>=◌, pure, Machine}

-- `entry`
pub record Entry : Type 0 where
  pub value : Text
  pub expires_at : ℕ

-- `lru.Cache[string, entry]`
pub record Lru (W : Type 0) : Type 0 where
  pub get : Text → W → Option Entry × W
  pub add : Text → Entry → W → Unit {0} × W
  pub remove : Text → W → Unit {0} × W

module _ {W : Type 0} (lru : Lru W) (machine : Machine W) where
  -- `Get` behind the clock: an entry whose time has passed is removed.
  unfoldable pub fresh : Text → Entry → ℕ → Action W (Option Text)
  fresh key e now =
      if ltb e.expires_at now then (do removed ← lru.remove key; pure none) else pure (some e.value)

  get_entry : Text → Option Entry → Action W (Option Text)
  unfolding fresh
  get_entry key none = pure none
  get_entry key (some e) = do now ← machine.now; fresh key e now

  -- `Get`
  unfoldable pub get : Text → Action W (Option Text)
  unfolding get_entry
  get key = do e ← lru.get key; get_entry key e

  -- `Set`
  unfoldable pub set : Text → Text → ℕ → Action W (Result (Unit {0}))
  set key value ttl = do
    now ← machine.now
    added ← lru.add key (record { value = value; expires_at = now + ttl })
    pure (ok tt)

  -- `Delete`
  unfoldable pub delete : Text → Action W (Result (Unit {0}))
  delete key = do removed ← lru.remove key; pure (ok tt)

  -- `Memory` as the `cache.Cache` of the checks.
  unfoldable pub memory : World.Cache W
  unfolding get set
  memory = record { get = get; set = set }

-- The client of Redis; an error of `get` stands for a missing key too.
pub record Redis (W : Type 0) : Type 0 where
  get_bytes : Text → W → Result Text × W
  set_bytes : Text → Text → ℕ → W → Result (Unit {0}) × W
  del : Text → W → Result (Unit {0}) × W

unfoldable pub hit : Result Text → Option Text
hit (ok v) = some v
hit (err e) = none

redis_error : Text → Result (Unit {0}) → Result (Unit {0})
redis_error message (ok u) = ok u
redis_error message (err e) = err (wrap message e)

module _ {W : Type 0} (client : Redis W) where
  -- `Redis.Get`
  redis_get : Text → Action W (Option Text)
  unfolding hit
  redis_get key = do v ← client.get_bytes key; pure (hit v)

  -- `Redis.Set`
  redis_set : Text → Text → ℕ → Action W (Result (Unit {0}))
  unfolding redis_error bytes
  redis_set key value ttl = do
    r ← client.set_bytes key value ttl
    pure (redis_error (bytes "redis set") r)

  -- `Redis.Delete`
  redis_delete : Text → Action W (Result (Unit {0}))
  unfolding redis_error bytes
  redis_delete key = do r ← client.del key; pure (redis_error (bytes "redis del") r)

  -- `Redis` as the `cache.Cache` of the checks.
  redis : World.Cache W
  unfolding redis_get redis_set
  redis = record { get = redis_get; set = redis_set }

-- `noopCache`
unfoldable pub noop : {W : Type 0} → World.Cache W
noop = record { get = λ key. pure none; set = λ key value ttl. pure (ok tt) }

pub record CacheConfig : Type 0 where
  driver : Text
  redis_addr : Text
  size : ℕ

-- `New`, over what makes a cache in memory of a size and one in Redis at an address.
unfoldable pub created :
    {W : Type 0}
    → (ℕ → Result (World.Cache W))
    → (Text → Result (World.Cache W))
    → CacheConfig
    → Result (World.Cache W)
unfolding noop bytes text_eq
created in_memory in_redis cfg =
    if text_eq cfg.driver (bytes "redis")
    then (if is_empty cfg.redis_addr
        then err (failed (bytes "cache driver redis requires cache.redis_addr"))
        else in_redis cfg.redis_addr)
    else if text_eq cfg.driver (bytes "none")
    then ok noop
    else elim (in_memory cfg.size) [
      | ok c ↦ ok c
      | err e ↦ err (wrap (bytes "creating memory cache") e)
    ]

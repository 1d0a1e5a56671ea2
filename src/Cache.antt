-- ===== src/Cache.antt =====
-- src/cache/CacheManager.cpp and include/CacheManager.h: the Redis operations, each of which turns
-- an exception of the client into a default value.
pub mod Online
use stream_gate.Base.{
  ℕ, zero, suc, String, Bool, true, false, not, ◌&&◌, Option, none, some, List, [], ◌∷◌, eqb, ltb,
  is_some, value_or, if◌then◌else◌,
}
use stream_gate.Base.Fields.{Fields}
use stream_gate.Base.Int.{ℤ, pos, negsuc}
use stream_gate.Base.Text.{◌==◌}
use stream_gate.Redis.{Redis, Command, hset, hdel, hincrby, sadd, srem, zadd, zrem, expire, del}

-- `connected`: `_redis` is not null.
pub record CacheManager : Type 0 where
  pub connected : Bool
  pub io_running : Bool

-- After a successful `init`.
abbrev pub ready : CacheManager
ready = record { connected = true; io_running = true }

abbrev pub cache_ttl : ℕ
cache_ttl = 300

-- A time to live that is not positive is replaced by the default.
abbrev pub effective_ttl : ℤ → ℕ
effective_ttl (pos zero) = cache_ttl
effective_ttl (pos (suc n)) = suc n
effective_ttl (negsuc n) = cache_ttl

-- The answer of the server to the ping of `init`: `none` where the connection or the ping throws.
-- `none` as a result says that `init` throws again; the object is changed before it does.
unfoldable pub init : Option String → CacheManager → CacheManager × Option (Unit {0})
init answer c = if c.io_running then (c, some tt) else elim answer [
  | none ↦ (record c { io_running = false }, none)
  | some pong ↦ if pong == "PONG" then (ready, some tt) else (record c { io_running = false }, none)
]

abbrev is_positive : ℤ → Bool
is_positive (pos zero) = false
is_positive (pos (suc n)) = true
is_positive (negsuc n) = false

abbrev replied_positive : Option ℤ → Bool
replied_positive none = false
replied_positive (some n) = is_positive n

abbrev pub counted : Option ℕ → Bool
counted none = false
counted (some n) = ltb 0 n

module _ (r : Redis) (c : CacheManager) where
  open r use {Server}

  -- `_redis->...` of a command whose reply is not looked at.
  done : Command → Server → Bool × Server
  done cmd s = if c.connected then (is_some (r.send cmd s).0, (r.send cmd s).1) else (false, s)

  -- `... > 0`
  changed : Command → Server → Bool × Server
  changed cmd s =
      if c.connected then (replied_positive (r.send cmd s).0, (r.send cmd s).1) else (false, s)

  unfoldable pub hash_set : String → Fields → Server → Bool × Server
  unfolding done
  hash_set key fields s = done (hset key fields) s

  unfoldable pub hash_get_all : String → Server → Fields
  hash_get_all key s = if c.connected then value_or (r.hgetall key s) [] else []

  unfoldable pub hash_del : String → String → Server → Bool × Server
  unfolding changed
  hash_del key field s = changed (hdel key field) s

  unfoldable pub hash_incr_by : String → String → ℤ → Server → ℤ × Server
  hash_incr_by key field increment s =
      if c.connected
      then (
        value_or (r.send (hincrby key field increment) s).0 (pos 0),
        (r.send (hincrby key field increment) s).1,
      )
      else (pos 0, s)

  unfoldable pub set_add : String → String → Server → Bool × Server
  unfolding done
  set_add key member s = done (sadd key (member ∷ [])) s

  unfoldable pub set_add_all : String → List String → Server → Bool × Server
  unfolding done
  set_add_all key members s = done (sadd key members) s

  unfoldable pub set_rem : String → String → Server → Bool × Server
  unfolding changed
  set_rem key member s = changed (srem key member) s

  unfoldable pub set_members : String → Server → List String
  set_members key s = if c.connected then value_or (r.smembers key s) [] else []

  unfoldable pub set_card : String → Server → ℕ
  set_card key s = if c.connected then value_or (r.scard key s) 0 else 0

  unfoldable pub zset_add : String → ℕ → String → Server → Bool × Server
  unfolding done
  zset_add key score member s = done (zadd key member score) s

  unfoldable pub zset_range_by_score : String → ℤ → ℤ → Server → List String
  zset_range_by_score key min max s =
      if c.connected then value_or (r.zrangebyscore key min max s) [] else []

  unfoldable pub zset_rem : String → String → Server → Bool × Server
  unfolding changed
  zset_rem key member s = changed (zrem key member) s

  unfoldable pub key_expire : String → ℤ → Server → Bool × Server
  unfolding changed
  key_expire key seconds s = changed (expire key (effective_ttl seconds)) s

  unfoldable pub key_del : String → Server → Bool × Server
  unfolding changed
  key_del key s = changed (del key) s

  unfoldable pub hash_key_del : String → Server → Bool × Server
  unfolding key_del
  hash_key_del key s = key_del key s

  unfoldable pub set_del : String → Server → Bool × Server
  unfolding key_del
  set_del key s = key_del key s

  unfoldable pub key_exists : String → Server → Bool
  key_exists key s = if c.connected then counted (r.exists key s) else false

  -- `none`: std::logic_error, which is not caught here.
  unfoldable pub ping : Server → Option Bool
  ping s =
      if c.io_running && c.connected
      then some (elim (r.ping s) [ none ↦ false | some res ↦ res == "PONG" ])
      else none

  -- `createPipeline().….exec()`. `none` is an exception: std::runtime_error without a connection,
  -- sw::redis::Error otherwise.
  unfoldable pub run_pipeline : List Command → Server → Option (List ℤ) × Server
  run_pipeline cmds s = if c.connected then r.exec cmds s else (none, s)

-- ===== src/Redis.antt =====
-- The Redis client that src/cache/CacheManager.cpp calls (redis-plus-plus). It is not part of the
-- repository, so it is a parameter: its calls as functions on a server's state, where `none` says
-- that the call throws sw::redis::Error.
pub mod Keyspace
pub mod Lawful
pub mod Sample
use stream_gate.Base.{ℕ, String, Option, none, some, List, [], ◌∷◌}
use stream_gate.Base.Fields.{Fields}
use stream_gate.Base.Int.{ℤ}

-- The commands that change data. HMSET and HSET are one; a score is a whole number of milliseconds.
pub data Command : Type 0 where
  hset : String → Fields → Command
  hdel : String → String → Command
  hincrby : String → String → ℤ → Command
  sadd : String → List String → Command
  srem : String → String → Command
  zadd : String → String → ℕ → Command
  zrem : String → String → Command
  expire : String → ℕ → Command
  del : String → Command
  setex : String → ℕ → String → Command

pub record Redis : Type 1 where
  pub Server : Type 0
  pub ping : Server → Option String
  pub get : String → Server → Option (Option String)
  pub hgetall : String → Server → Option Fields
  pub smembers : String → Server → Option (List String)
  pub scard : String → Server → Option ℕ
  pub exists : String → Server → Option ℕ
  pub zrangebyscore : String → ℤ → ℤ → Server → Option (List String)
  -- One command and its integer reply; a status reply counts as 0.
  pub send : Command → Server → Option ℤ × Server
  -- `exec` of a pipeline.
  pub exec : List Command → Server → Option (List ℤ) × Server

module _ {Server : Type 0} (send : Command → Server → Option ℤ × Server) where
  abbrev prepend : Option ℤ → Option (List ℤ) → Option (List ℤ)
  prepend none rs = none
  prepend (some r) none = none
  prepend (some r) (some rs) = some (r ∷ rs)

  -- The commands one after another.
  abbrev pub send_all : List Command → Server → Option (List ℤ) × Server
  send_all [] s = (some [], s)
  send_all (c ∷ cs) s =
      (prepend (send c s).0 (send_all cs (send c s).1).0, (send_all cs (send c s).1).1)

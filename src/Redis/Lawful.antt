-- ===== src/Redis/Lawful.antt =====
-- What the program relies on of Redis, as Redis documents its commands. `Online s` says that the
-- server can be reached, and that each key holds a value of its kind or none; sending a command
-- that fits keeps both. Nothing is assumed of a server that is not online.
use stream_gate.Base.{ℕ, String, ◌≡◌, Bool, true, false, ◌&&◌, Option, none, some, List}
use stream_gate.Base.Fields.{Fields, lookup}
use stream_gate.Base.Int.{ℤ, pos, leb_ℤ}
use stream_gate.Redis.{Redis, Command, send_all}
use stream_gate.Redis.Keyspace.{
  Keyspace, hashes, sets, scores, texts, kind_of, fits, AllFit, apply, Replies, contains,
}

abbrev pub in_bounds : ℤ → ℤ → Option ℕ → Bool
in_bounds lo hi none = false
in_bounds lo hi (some n) = leb_ℤ lo (pos n) && leb_ℤ (pos n) hi

pub record Lawful (r : Redis) : Type 1 where
  pub Online : r.Server → Type 0
  pub view : r.Server → Keyspace
  pub ping_law : (s : r.Server) → Online s → r.ping s ≡ some "PONG"
  pub get_law :
      (k : String) (s : r.Server)
      → Online s
      → kind_of k ≡ texts
      → r.get k s ≡ some ((view s).text k)
  pub hgetall_law :
      (k : String) (s : r.Server)
      → Online s
      → kind_of k ≡ hashes
      → (fs : Fields) × (r.hgetall k s ≡ some fs) × ((f : String) → lookup f fs ≡ (view s).hash k f)
  pub smembers_law :
      (k : String) (s : r.Server)
      → Online s
      → kind_of k ≡ sets
      → (ms : List String) × (r.smembers k s ≡ some ms)
        × ((m : String) → contains m ms ≡ (view s).set k m)
  pub exists_law :
      (k : String) (s : r.Server)
      → Online s
      → kind_of k ≡ hashes
      → r.exists k s ≡ some (elim ((view s).has_hash k) [ true ↦ 1 | false ↦ 0 ])
  pub zrangebyscore_law :
      (k : String) (lo hi : ℤ) (s : r.Server)
      → Online s
      → kind_of k ≡ scores
      → (ms : List String) × (r.zrangebyscore k lo hi s ≡ some ms)
        × ((m : String) → contains m ms ≡ in_bounds lo hi ((view s).score k m))
  pub send_law :
      (c : Command) (s : r.Server)
      → Online s
      → fits c (view s) ≡ true
      → (n : ℤ) × ((r.send c s).0 ≡ some n)
        × Replies c (view s) n
        × ((view (r.send c s).1 ≡ apply c (view s)) × Online (r.send c s).1)
  -- A pipeline sends its commands in order.
  pub exec_law :
      (cs : List Command) (s : r.Server)
      → Online s
      → AllFit cs (view s)
      → r.exec cs s ≡ send_all r.send cs s

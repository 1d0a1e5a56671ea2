-- ===== src/Scheduler/Expiry.antt =====
-- What the cleanup does with a task that timed out, on a server that is online.
use stream_gate.Redis.{Redis}
use stream_gate.Redis.Keyspace.{Keyspace}
use stream_gate.Redis.Lawful.{Lawful}

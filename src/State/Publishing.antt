-- ===== src/State/Publishing.antt =====
-- `registerTask` for a publisher, on a server that is online.
use stream_gate.Base.{
  ℕ, ◌≤◌, ◌≡◌, ◌≢◌, refl, ap, ◌∙◌, Bool, true, false, Option, none, some, [], ◌∷◌, arith,
  if◌then◌else◌,
}
use stream_gate.Base.Text.{◌==◌, eq_refl, eq_iff}
use stream_gate.Task.{StreamTask, StreamType, publisher, player}
use stream_gate.Task.Fields.{min_reasonable_ms, max_reasonable_ms}
use stream_gate.Task.Fields.RoundTrip.{IsStorable, deserialize_task_missing}
use stream_gate.Redis.{Redis}
use stream_gate.Redis.Keyspace.{Keyspace, apply_all}
use stream_gate.Redis.Lawful.{Lawful}
use stream_gate.Cache.Online.{sent_all, sent_all-online, view-sent_all}
use stream_gate.State.Keys.{build_publisher_key}
use stream_gate.State.Query.{get_publisher_task, is_active}
use stream_gate.State.Register.{
  other_client, clear_publisher, clear_by_type, clear_old, register_task,
}
use stream_gate.State.Removal.{
  CanDrop, identified, removal_commands, removal-fits, deregister_task-sent_all,
}
use stream_gate.State.Deregister.{batch_commands, deregister_task}
use stream_gate.State.Store.{
  publisher_commands, store_task-publisher, view-publisher, online-publisher,
}
use stream_gate.State.Stored.{
  IsRegistered, IsPublished, publisher-IsRegistered, publisher-IsPublished,
}
use stream_gate.State.View.{load, task_at, publisher_at, get_publisher_task-publisher_at}

abbrev pub IsClock : ℕ → Type 0
IsClock now = (min_reasonable_ms ≤ now) × (now ≤ max_reasonable_ms)

-- No other client holds the stream.
abbrev pub IsFree : StreamTask → Keyspace → Type 0
IsFree task v = other_client task.client_id (load v (build_publisher_key task.stream_name)) ≡ false

batch-IsFree :
    (task : StreamTask) (t : StreamType) (v : Keyspace)
    → IsFree task v
    → IsFree task (apply_all (batch_commands (identified task.stream_name task.client_id t ∷ [])) v)
batch-IsFree task publisher v free =
    ap (other_client task.client_id) (deserialize_task_missing _ (rw (eq_refl task.stream_name)))
batch-IsFree task player v free = free

removal-IsFree :
    (task : StreamTask) (found : Option StreamTask) (v : Keyspace)
    → IsFree task v
    → IsFree task (apply_all (removal_commands task.stream_name task.client_id found) v)
removal-IsFree task none v free = free
removal-IsFree task (some t) v free = batch-IsFree task t.type v free

same_client :
    (task existing : StreamTask)
    → other_client task.client_id (some existing) ≡ false
    → (existing.client_id == task.client_id) ≡ true
same_client task existing free = ground arith

holder_same :
    (b : Bool) (task existing : StreamTask) (held : Option StreamTask)
    → other_client task.client_id held ≡ false
    → (if b then held else none) ≡ some existing
    → (existing.client_id == task.client_id) ≡ true
holder_same true task existing none free e = cc
holder_same true task existing (some t) free e = ground arith
holder_same false task existing held free e = cc

-- Of a test and what it guards, only the found task matters.
clear_publisher-none :
    (r : Redis) (t : StreamType) (task : StreamTask) (s : r.Server)
    → t ≡ publisher
    → get_publisher_task r task.stream_name s ≡ none
    → clear_by_type r t task s ≡ some s
unfolding clear_by_type clear_publisher
clear_publisher-none r t task s is_pub e = rw (is_pub, e)

clear_publisher-same :
    (r : Redis) (t : StreamType) (task existing : StreamTask) (s : r.Server)
    → t ≡ publisher
    → get_publisher_task r task.stream_name s ≡ some existing
    → (existing.client_id == task.client_id) ≡ true
    → clear_by_type r t task s ≡ some (deregister_task r task.stream_name task.client_id s).1
unfolding clear_by_type clear_publisher
clear_publisher-same r t task existing s is_pub e same = rw (is_pub, e, same)

clear_publisher-other :
    (r : Redis) (t : StreamType) (task existing : StreamTask) (s : r.Server)
    → t ≡ publisher
    → get_publisher_task r task.stream_name s ≡ some existing
    → (existing.client_id == task.client_id) ≡ false
    → clear_by_type r t task s ≡ none
unfolding clear_by_type clear_publisher
clear_publisher-other r t task existing s is_pub e other = rw (is_pub, e, other)

module _ (r : Redis) (l : Lawful r) (task : StreamTask) (s : r.Server) (o : l.Online s) where
  -- The server after the old state of the client is cleared.
  abbrev IsCleared : Type 0
  IsCleared =
      (s' : r.Server) × (clear_old r task s ≡ some s') × l.Online s' × IsFree task (l.view s')

  cleared :
      (held : Option StreamTask)
      → task.type ≡ publisher
      → publisher_at (l.view s) task.stream_name ≡ held
      → CanDrop (l.view s)
      → IsFree task (l.view s)
      → IsCleared
  unfolding clear_old
  cleared none is_pub e drop free = (
    s,
    clear_publisher-none r task.type task s is_pub
        (get_publisher_task-publisher_at r l s o task.stream_name ∙ e),
    o,
    free,
  )
  cleared (some existing) is_pub e drop free =
      let a = task.stream_name in
      let cmds = removal_commands a task.client_id (task_at (l.view s) a task.client_id) in
      let fit =
        removal-fits a task.client_id (task_at (l.view s) a task.client_id) (l.view s) drop in
      (
        sent_all r l cmds s,
        clear_publisher-same r task.type task existing s is_pub
              (get_publisher_task-publisher_at r l s o a ∙ e)
              (holder_same (is_active ((l.view s).hash (build_publisher_key a) "active")) task
                existing _ free e)
            ∙ ap (λ p. some p.1) (deregister_task-sent_all r l s o a task.client_id drop),
        sent_all-online r l cmds s o fit,
        rw (view-sent_all r l cmds s o fit)
            (removal-IsFree task (task_at (l.view s) a task.client_id) (l.view s) free),
      )

  -- A publisher of a stream that no other client holds is registered: whatever was kept of the same
  -- client before, afterwards its task and the stream's holder read back as the stored task, the
  -- client is a member of the stream, and the scan will look at the task from `now` on.
  pub register_task-publisher :
      (now : ℕ)
      → task.type ≡ publisher
      → IsClock now
      → IsStorable task
      → CanDrop (l.view s)
      → IsFree task (l.view s)
      → (s' : r.Server) × (register_task r now task s ≡ (true, s'))
        × l.Online s'
        × IsRegistered now task (l.view s')
        × IsPublished task (l.view s')
  unfolding register_task
  register_task-publisher now is_pub clock ok drop free =
      let (s0, e, o0, free0) =
        cleared (publisher_at (l.view s) task.stream_name) is_pub refl drop free in
      let v0 = l.view s0 in
      let seen = view-publisher r l now task s0 o0 clock in
      (
        sent_all r l (publisher_commands now task) s0,
        rw (e, register_task) (store_task-publisher r l now task s0 o0 clock is_pub free0),
        online-publisher r l now task s0 o0 clock,
        rw seen (publisher-IsRegistered now task v0 ok),
        rw seen (publisher-IsPublished now task v0 ok),
      )

  -- A stream that another client holds is refused to a publisher, and nothing is changed.
  pub register_task_conflict :
      (now : ℕ) (existing : StreamTask)
      → task.type ≡ publisher
      → publisher_at (l.view s) task.stream_name ≡ some existing
      → existing.client_id ≢ task.client_id
      → register_task r now task s ≡ (false, s)
  unfolding register_task clear_old
  register_task_conflict now existing is_pub held other = rw (
    clear_publisher-other r task.type task existing s is_pub
        (get_publisher_task-publisher_at r l s o task.stream_name ∙ held)
        (ground (arith, eq_iff existing.client_id task.client_id)),
    register_task,
  )

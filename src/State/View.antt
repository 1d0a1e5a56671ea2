-- ===== src/State/View.antt =====
-- The queries of the state manager, read off the keyspace of a server that is online.
use stream_gate.Base.{
  String, ◌≡◌, refl, sym, ap, fun_ext, not, ◌||◌, Option, none, [], ◌∷◌, arith, if◌then◌else◌,
}
use stream_gate.Base.Fields.{Fields, lookup}
use stream_gate.Task.{StreamTask}
use stream_gate.Task.Fields.{deserialize_task}
use stream_gate.Task.Fields.RoundTrip.{deserialize_task_missing}
use stream_gate.Redis.{Redis}
use stream_gate.Redis.Keyspace.{Keyspace, hashes, kind_of, contains}
use stream_gate.Redis.Lawful.{Lawful}
use stream_gate.Cache.{hash_get_all, set_members}
use stream_gate.State.Keys.{build_task_key, build_publisher_key, member_key}
use stream_gate.State.Query.{
  get_task_by_key, get_task, get_publisher_task, get_stream_client_ids, is_active, no_fields,
}

-- The task under a key.
abbrev pub load : Keyspace → String → Option StreamTask
load v k = deserialize_task (v.hash k)

abbrev pub task_at : Keyspace → String → String → Option StreamTask
task_at v stream_name client_id = load v (build_task_key stream_name client_id)

abbrev pub publisher_at : Keyspace → String → Option StreamTask
publisher_at v stream_name =
    if is_active (v.hash (build_publisher_key stream_name) "active")
    then load v (build_publisher_key stream_name)
    else none

load_fields :
    (fs : Fields) (find : String → Option String)
    → ((f : String) → lookup f fs ≡ find f)
    → (if no_fields fs then none else deserialize_task (λ f. lookup f fs)) ≡ deserialize_task find
load_fields [] find e = sym (deserialize_task_missing find (sym (e "stream_name")))
load_fields (x ∷ fs) find e = ap deserialize_task (fun_ext e)

publisher_fields :
    (fs : Fields) (find : String → Option String)
    → ((f : String) → lookup f fs ≡ find f)
    → (if no_fields fs || not (is_active (lookup "active" fs))
        then none
        else deserialize_task (λ f. lookup f fs))
      ≡ (if is_active (find "active") then deserialize_task find else none)
publisher_fields [] find e = rw (← e "active")
publisher_fields (x ∷ fs) find e = rw (e "active", ap deserialize_task (fun_ext e)) (ground arith)

module _ (r : Redis) (l : Lawful r) (s : r.Server) (o : l.Online s) where
  pub get_task_by_key-load :
      (k : String) → kind_of k ≡ hashes → get_task_by_key r k s ≡ load (l.view s) k
  unfolding get_task_by_key hash_get_all
  get_task_by_key-load k e =
      let (fs, replied, found) = l.hgetall_law k s o e in
      rw replied (load_fields fs ((l.view s).hash k) found)

  pub get_task-task_at : (a c : String) → get_task r a c s ≡ task_at (l.view s) a c
  unfolding get_task
  get_task-task_at a c = get_task_by_key-load (build_task_key a c) refl

  pub get_publisher_task-publisher_at :
      (a : String) → get_publisher_task r a s ≡ publisher_at (l.view s) a
  unfolding get_publisher_task hash_get_all
  get_publisher_task-publisher_at a =
      let (fs, replied, found) = l.hgetall_law (build_publisher_key a) s o refl in
      rw replied (publisher_fields fs ((l.view s).hash (build_publisher_key a)) found)

  pub get_stream_client_ids-set :
      (a m : String) → contains m (get_stream_client_ids r a s) ≡ (l.view s).set (member_key a) m
  unfolding get_stream_client_ids set_members
  get_stream_client_ids-set a m =
      let (ms, replied, found) = l.smembers_law (member_key a) s o refl in rw replied (found m)

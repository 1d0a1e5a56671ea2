-- ===== src/State/Store.antt =====
-- What `registerTask` sends to a server that is online, from the write of the hash on.
use stream_gate.Base.{
  ℕ, String, ◌≡◌, refl, ap, ◌∙◌, true, false, ◌||◌, ◌≤◌, List, [], ◌∷◌, arith, ltb,
}
use stream_gate.Base.Int.{pos}
use stream_gate.Base.Text.{eq_refl}
use stream_gate.Task.{StreamTask, StreamType, publisher, player}
use stream_gate.Task.Fields.{serialize_task, min_reasonable_ms, max_reasonable_ms}
use stream_gate.Redis.{Redis, Command, hset, hincrby, sadd, zadd, expire}
use stream_gate.Redis.Keyspace.{Keyspace, hashes, kind_of, fits, AllFit, apply_all, counts}
use stream_gate.Redis.Lawful.{Lawful}
use stream_gate.Cache.Online.{
  sent, sent_all, sent-online, view-sent, sent_all-online, view-sent_all, run_pipeline-sent_all,
  hash_set-sent, hash_incr_by-sent, set_add-sent, zset_add-sent, key_expire-sent,
}
use stream_gate.State.Keys.{
  build_publisher_key, build_active_publishers_key, build_global_player_count_key,
  build_task_timestamp_zset_key, member_key,
}
use stream_gate.State.Register.{
  other_client, task_key_of, index_commands, register_publisher_indices, register_player_indices,
  stamp_task, index_by_type, index_task, expire_task, store_task,
}
use stream_gate.State.View.{load, get_task_by_key-load}

abbrev pub stamp : ℕ → StreamTask → Command
stamp now task = zadd build_task_timestamp_zset_key (task_key_of task) now

abbrev pub write_commands : StreamTask → List Command → List Command
write_commands task rest =
    hset (task_key_of task) (serialize_task task) ∷ expire (task_key_of task) 60 ∷ rest

abbrev pub publisher_commands : ℕ → StreamTask → List Command
publisher_commands now task = write_commands task (
    hset (build_publisher_key task.stream_name) (serialize_task task)
    ∷ sadd (member_key task.stream_name) (task.client_id ∷ [])
    ∷ sadd build_active_publishers_key (task.stream_name ∷ [])
    ∷ stamp now task
    ∷ [])

abbrev pub player_commands : ℕ → StreamTask → List Command
player_commands now task = write_commands task (
    sadd (member_key task.stream_name) (task.client_id ∷ [])
    ∷ hincrby build_global_player_count_key "total" (pos 1)
    ∷ stamp now task
    ∷ [])

pub fits-serialize_task :
    (k : String) (t : StreamTask) (v : Keyspace)
    → kind_of k ≡ hashes
    → fits (hset k (serialize_task t)) v ≡ true
unfolding serialize_task
fits-serialize_task k t v e = rw e

module _ (r : Redis) (l : Lawful r) (now : ℕ) (task : StreamTask) where
  -- The clock is in the range that the program takes for reasonable.
  abbrev pub InRange : Type 0
  InRange = (min_reasonable_ms ≤ now) × (now ≤ max_reasonable_ms)

  stamp_task-sent :
      (s : r.Server)
      → l.Online s
      → InRange
      → stamp_task r now task s ≡ (true, sent r l (stamp now task) s)
  unfolding stamp_task
  stamp_task-sent s o (low, high) =
      let in_range : (ltb now min_reasonable_ms || ltb max_reasonable_ms now) ≡ false =
        ground arith in
      rw (in_range, zset_add-sent r l s o build_task_timestamp_zset_key (task_key_of task) now refl)

  write-fits : (v : Keyspace) → AllFit (write_commands task []) v
  write-fits v = (fits-serialize_task (task_key_of task) task v refl, (refl, tt))

  write-index_task :
      (s : r.Server)
      → l.Online s
      → store_task r now task s ≡ index_task r now task (sent_all r l (write_commands task []) s)
  unfolding store_task expire_task
  write-index_task s o =
      let written = fits-serialize_task (task_key_of task) task (l.view s) refl in
      let c = hset (task_key_of task) (serialize_task task) in
      rw (
        hash_set-sent r l s o (task_key_of task) (serialize_task task) written,
        key_expire-sent r l (sent r l c s) (sent-online r l c s o written) (task_key_of task) refl,
        view-sent r l c s o written,
        eq_refl (task_key_of task),
      )

  index_task-stamp :
      (s s' : r.Server)
      → l.Online s'
      → InRange
      → index_by_type r task.type task s ≡ (true, s')
      → index_task r now task s ≡ (true, sent r l (stamp now task) s')
  unfolding index_task
  index_task-stamp s s' o clock e = rw (e, stamp_task-sent s' o clock)

index-fits : (task : StreamTask) (v : Keyspace) → AllFit (index_commands task) v
index-fits task v =
    (fits-serialize_task (build_publisher_key task.stream_name) task v refl, (refl, (refl, tt)))

module _ (r : Redis) (l : Lawful r) (task : StreamTask) (s : r.Server) (o : l.Online s) where
  publisher_indices-sent :
      (t : StreamType)
      → t ≡ publisher
      → other_client task.client_id (load (l.view s) (build_publisher_key task.stream_name)) ≡ false
      → index_by_type r t task s ≡ (true, sent_all r l (index_commands task) s)
  unfolding index_by_type register_publisher_indices
  publisher_indices-sent t e free =
      let (rs, replied) =
        run_pipeline-sent_all r l (index_commands task) s o (index-fits task (l.view s)) in
      rw (
        e,
        get_task_by_key-load r l s o (build_publisher_key task.stream_name) refl,
        free,
        ap (λ p. p.0) replied,
        ap (λ p. p.1) replied,
      )

  player_indices-sent :
      (t : StreamType)
      → t ≡ player
      → index_by_type r t task s ≡ (
        true,
        sent r l
            (hincrby build_global_player_count_key "total" (pos 1))
            (sent r l (sadd (member_key task.stream_name) (task.client_id ∷ [])) s),
      )
  unfolding index_by_type register_player_indices
  player_indices-sent t e = rw (
    e,
    set_add-sent r l s o (member_key task.stream_name) task.client_id refl,
    hash_incr_by-sent r l (sent r l (sadd (member_key task.stream_name) (task.client_id ∷ [])) s)
        (sent-online r l _ s o refl) build_global_player_count_key "total" (pos 1),
  )

module _ (r : Redis) (l : Lawful r) (now : ℕ) (task : StreamTask) (s : r.Server) (o : l.Online s)
    (clock : (min_reasonable_ms ≤ now) × (now ≤ max_reasonable_ms)) where
  abbrev written : r.Server
  written = sent_all r l (write_commands task []) s

  written-online : l.Online written
  written-online =
      sent_all-online r l (write_commands task []) s o (write-fits r l now task (l.view s))

  view-written : l.view written ≡ apply_all (write_commands task []) (l.view s)
  view-written = view-sent_all r l (write_commands task []) s o (write-fits r l now task (l.view s))

  pub store_task-publisher :
      task.type ≡ publisher
      → other_client task.client_id (load (l.view s) (build_publisher_key task.stream_name)) ≡ false
      → store_task r now task s ≡ (true, sent_all r l (publisher_commands now task) s)
  store_task-publisher is_pub free =
      write-index_task r l now task s o
      ∙ index_task-stamp r l now task written (sent_all r l (index_commands task) written)
          (sent_all-online r l (index_commands task) written written-online
            (index-fits task (l.view written)))
          clock
          (publisher_indices-sent r l task written written-online task.type is_pub
            (rw view-written free))

  -- The player counter can be counted up once more.
  abbrev pub HasRoom : Type 0
  HasRoom = counts ((l.view s).hash build_global_player_count_key "total") (pos 1) ≡ true

  player_commands-fit : HasRoom → AllFit (player_commands now task) (l.view s)
  player_commands-fit room = (
    fits-serialize_task (task_key_of task) task (l.view s) refl,
    (refl, (refl, (room, (refl, tt)))),
  )

  pub store_task-player :
      task.type ≡ player
      → HasRoom
      → store_task r now task s ≡ (true, sent_all r l (player_commands now task) s)
  store_task-player is_player room =
      let add = sadd (member_key task.stream_name) (task.client_id ∷ []) in
      let count = hincrby build_global_player_count_key "total" (pos 1) in
      write-index_task r l now task s o
      ∙ index_task-stamp r l now task written (sent_all r l (add ∷ count ∷ []) written)
          (sent_all-online r l (add ∷ count ∷ []) written written-online
            (refl, (rw view-written room, tt)))
          clock (player_indices-sent r l task written written-online task.type is_player)

  publisher_commands-fit : AllFit (publisher_commands now task) (l.view s)
  unfolding serialize_task
  publisher_commands-fit = (refl, (refl, (refl, (refl, (refl, (refl, tt))))))

  pub view-publisher :
      l.view (sent_all r l (publisher_commands now task) s)
      ≡ apply_all (publisher_commands now task) (l.view s)
  view-publisher = view-sent_all r l (publisher_commands now task) s o publisher_commands-fit

  pub online-publisher : l.Online (sent_all r l (publisher_commands now task) s)
  online-publisher = sent_all-online r l (publisher_commands now task) s o publisher_commands-fit

  pub view-player :
      HasRoom
      → l.view (sent_all r l (player_commands now task) s)
        ≡ apply_all (player_commands now task) (l.view s)
  view-player room = view-sent_all r l (player_commands now task) s o (player_commands-fit room)

  pub online-player : HasRoom → l.Online (sent_all r l (player_commands now task) s)
  online-player room = sent_all-online r l (player_commands now task) s o (player_commands-fit room)

-- ===== src/State/Scanned.antt =====
-- What `scanTimeoutTasks` reports, and what one round of its loop does on a server that is online.
use stream_gate.Base.{
  ℕ, ◌+◌, ◌≤◌, String, ◌≡◌, refl, ◌∙◌, Bool, true, false, Option, none, some, List, [], ◌∷◌, All,
  arith, is_some, ltb, ◌<◌, if◌then◌else◌,
}
use stream_gate.Base.Text.{eq_refl}
use stream_gate.Task.{StreamTask}
use stream_gate.Task.Fields.{to_ms}
use stream_gate.Redis.{Redis, Command, zrem, zadd}
use stream_gate.Redis.Keyspace.{apply}
use stream_gate.Redis.Lawful.{Lawful}
use stream_gate.Cache.{ready, zset_rem}
use stream_gate.Cache.Online.{sent, sent_all, sent-online, view-sent, zset_rem-sent, zset_add-sent}
use stream_gate.State.Keys.{build_task_key, build_task_timestamp_zset_key, member_key}
use stream_gate.State.Query.{get_task_by_key, cons_found}
use stream_gate.State.Register.{task_key_of}
use stream_gate.State.Removal.{CanDrop, removal_commands, deregister_task-sent_all}
use stream_gate.State.Scan.{scan_loaded, scan_one, scan_from, scan_timeout_tasks}
use stream_gate.State.View.{task_at, publisher_at, get_task_by_key-load}

module _ (now timeout : ℕ) where
  abbrev pub IsExpired : StreamTask → Type 0
  IsExpired task = to_ms task.last_active_time + timeout ≤ now

  found-IsExpired :
      (found : Option StreamTask) (tasks : List StreamTask)
      → ((task : StreamTask) → found ≡ some task → IsExpired task)
      → All IsExpired tasks
      → All IsExpired (cons_found found tasks)
  found-IsExpired none tasks h rest = rest
  found-IsExpired (some task) tasks h rest = (h task refl, rest)

  module _ (r : Redis) where
    reported :
        (b : Bool) (s1 s2 : r.Server) (t task : StreamTask)
        → ltb now (to_ms t.last_active_time + timeout) ≡ b
        → (if◌then◌else◌ {A = Option StreamTask × r.Server} b (none, s1) (some t, s2)).0 ≡ some task
        → IsExpired task
    reported true s1 s2 t task e h = cc
    reported false s1 s2 t task e h = let same : t ≡ task = cc in rw (← same) (ground (arith, e))

    loaded-IsExpired :
        (k : String) (found : Option StreamTask) (s : r.Server) (task : StreamTask)
        → (scan_loaded r now timeout k found s).0 ≡ some task
        → IsExpired task
    loaded-IsExpired k none s task h = cc
    loaded-IsExpired k (some t) s task h =
        reported (ltb now (to_ms t.last_active_time + timeout)) _ _ t task refl h

    then_found :
        (b : Bool) (x : Option StreamTask × r.Server) (s' : r.Server) (task : StreamTask)
        → (if◌then◌else◌ {A = Option StreamTask × r.Server} b x (none, s')).0 ≡ some task
        → x.0 ≡ some task
    then_found true x s' task h = h
    then_found false x s' task h = cc

    scan_one-IsExpired :
        (k : String) (s : r.Server) (task : StreamTask)
        → (scan_one r now timeout k s).0 ≡ some task
        → IsExpired task
    unfolding scan_one
    scan_one-IsExpired k s task h =
        let s' = (zset_rem r ready build_task_timestamp_zset_key k s).1 in
        loaded-IsExpired k (get_task_by_key r k s') s' task
          (then_found (zset_rem r ready build_task_timestamp_zset_key k s).0 _ s' task h)

    scan_from-IsExpired :
        (keys : List String) (s : r.Server) → All IsExpired (scan_from r now timeout keys s).0
    unfolding scan_from
    scan_from-IsExpired [] s = tt
    scan_from-IsExpired (k ∷ keys) s =
        found-IsExpired (scan_one r now timeout k s).0 _ (scan_one-IsExpired k s)
          (scan_from-IsExpired keys (scan_one r now timeout k s).1)

    -- Whatever the server does, a task that the scan reports was last active at least the timeout
    -- ago.
    pub scan_timeout_tasks-IsExpired :
        (s : r.Server) → All IsExpired (scan_timeout_tasks r now timeout s).0
    unfolding scan_timeout_tasks
    scan_timeout_tasks-IsExpired s = scan_from-IsExpired _ s

-- The commands for a task that timed out.
abbrev unstamp : StreamTask → Command
unstamp task = zrem build_task_timestamp_zset_key (task_key_of task)

abbrev pub reclaim_commands : StreamTask → List Command
reclaim_commands task = unstamp task ∷ removal_commands task.stream_name task.client_id (some task)

module _ (now timeout : ℕ) (r : Redis) (l : Lawful r) (s : r.Server) (o : l.Online s)
    (task : StreamTask) (found : task_at (l.view s) task.stream_name task.client_id ≡ some task)
    (stamped : is_some ((l.view s).score build_task_timestamp_zset_key (task_key_of task))
      ≡ true) where
  abbrev unstamped : r.Server
  unstamped = sent r l (unstamp task) s

  unstamped-online : l.Online unstamped
  unstamped-online = sent-online r l (unstamp task) s o refl

  found_again :
      (l.view unstamped ≡ apply (unstamp task) (l.view s))
      × (get_task_by_key r (task_key_of task) unstamped ≡ some task)
  found_again =
      let seen = view-sent r l (unstamp task) s o refl in
      (
        seen,
        get_task_by_key-load r l unstamped unstamped-online (task_key_of task) refl ∙ rw seen found,
      )

  pub scan_one-reclaims :
      IsExpired now timeout task
      → CanDrop (l.view s)
      → scan_one r now timeout (task_key_of task) s
        ≡ (some task, sent_all r l (reclaim_commands task) s)
  unfolding scan_one
  scan_one-reclaims expired drop =
      let (seen, again) = found_again in
      let late : ltb now (to_ms task.last_active_time + timeout) ≡ false =
        ground (arith, expired) in
      let removed =
        deregister_task-sent_all r l unstamped unstamped-online task.stream_name task.client_id
          (rw seen drop) in
      let same : task_at (l.view unstamped) task.stream_name task.client_id ≡ some task =
        rw seen found in
      rw (
        zset_rem-sent r l s o build_task_timestamp_zset_key (task_key_of task) refl,
        stamped,
        again,
        late,
        removed,
        same,
      )

  -- A task whose last activity is less than the timeout ago is not reported: it is found as before,
  -- and the set then holds the time of its last activity.
  pub scan_one-keeps :
      now < to_ms task.last_active_time + timeout
      → (s' : r.Server) × (scan_one r now timeout (task_key_of task) s ≡ (none, s'))
        × l.Online s'
        × (task_at (l.view s') task.stream_name task.client_id ≡ some task)
        × ((l.view s').score build_task_timestamp_zset_key (task_key_of task)
            ≡ some (to_ms task.last_active_time))
  unfolding scan_one
  scan_one-keeps early =
      let (seen, again) = found_again in
      let soon : ltb now (to_ms task.last_active_time + timeout) ≡ true = ground (arith, early) in
      let c = zadd build_task_timestamp_zset_key (task_key_of task) (to_ms task.last_active_time) in
      let seen' = view-sent r l c unstamped unstamped-online refl in
      (
        sent r l c unstamped,
        rw (
          zset_rem-sent r l s o build_task_timestamp_zset_key (task_key_of task) refl,
          stamped,
          again,
          soon,
          zset_add-sent r l unstamped unstamped-online build_task_timestamp_zset_key
              (task_key_of task) (to_ms task.last_active_time) refl,
        ),
        sent-online r l c unstamped unstamped-online refl,
        rw (seen', seen) found,
        rw (seen', eq_refl (task_key_of task)),
      )

-- A task that has a time in the set but no hash, such as one whose hash has expired, is not
-- reported and leaves the set, so that no later scan looks at it; a stream that it holds stays
-- held, and its client stays a member.
pub scan_one_lost :
    (now timeout : ℕ) (r : Redis) (l : Lawful r) (s : r.Server) (a c : String)
    → l.Online s
    → task_at (l.view s) a c ≡ none
    → is_some ((l.view s).score build_task_timestamp_zset_key (build_task_key a c)) ≡ true
    → (s' : r.Server) × (scan_one r now timeout (build_task_key a c) s ≡ (none, s'))
      × l.Online s'
      × ((l.view s').score build_task_timestamp_zset_key (build_task_key a c) ≡ none)
      × ((b : String) → publisher_at (l.view s') b ≡ publisher_at (l.view s) b)
      × ((b d : String) → (l.view s').set (member_key b) d ≡ (l.view s).set (member_key b) d)
unfolding scan_one
scan_one_lost now timeout r l s a c o lost stamped =
    let k = build_task_key a c in
    let cmd = zrem build_task_timestamp_zset_key k in
    let seen = view-sent r l cmd s o refl in
    let o' = sent-online r l cmd s o refl in
    let again : get_task_by_key r k (sent r l cmd s) ≡ none =
      get_task_by_key-load r l (sent r l cmd s) o' k refl ∙ rw seen lost in
    (
      sent r l cmd s,
      rw (zset_rem-sent r l s o build_task_timestamp_zset_key k refl, stamped, again),
      o',
      rw (seen, eq_refl k),
      (λ b. rw seen refl),
      (λ b d. rw seen refl),
    )

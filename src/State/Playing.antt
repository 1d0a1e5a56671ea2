-- ===== src/State/Playing.antt =====
-- `registerTask` for a player, on a server that is online, and the global player counter.
use stream_gate.Base.{
  ℕ, suc, String, ◌≡◌, refl, ap, ◌∙◌, Bool, true, false, ◌&&◌, Option, none, some, [], ◌∷◌, arith,
  if◌then◌else◌,
}
use stream_gate.Base.Int.{ℤ, pos, negsuc}
use stream_gate.Task.{StreamTask, StreamType, publisher, player}
use stream_gate.Task.Fields.RoundTrip.{IsStorable}
use stream_gate.Redis.{Redis}
use stream_gate.Redis.Keyspace.{Keyspace, apply_all}
use stream_gate.Redis.Lawful.{Lawful}
use stream_gate.Cache.{ready, key_exists}
use stream_gate.Cache.Online.{sent_all, sent_all-online, view-sent_all, key_exists-has_hash}
use stream_gate.State.Keys.{build_player_set_key}
use stream_gate.State.Deregister.{batch_commands, deregister_task}
use stream_gate.State.Register.{task_key_of, clear_by_type, clear_old, register_task}
use stream_gate.State.Removal.{
  CanDrop, identified, removal_commands, removal-fits, deregister_task-sent_all,
}
use stream_gate.State.Publishing.{IsClock}
use stream_gate.State.Store.{player_commands, store_task-player, view-player, online-player}
use stream_gate.State.Stored.{IsRegistered, player-IsRegistered}
use stream_gate.State.Totals.{
  HasTotal, counts_lem, count_up, count_down, HasTotal-up, HasTotal-down, HasTotal_same,
  HasTotal-weaken,
}
use stream_gate.State.View.{task_at}

abbrev pub is_player : StreamType → Bool
is_player player = true
is_player publisher = false

abbrev pub found_player : Option StreamTask → Bool
found_player none = false
found_player (some t) = is_player t.type

-- The client has the hash of a player of the stream. A client whose hash is gone has none, also where
-- it is still a member and was counted.
abbrev pub has_player_hash : Keyspace → StreamTask → Bool
has_player_hash v task =
    v.has_hash (task_key_of task) && found_player (task_at v task.stream_name task.client_id)

abbrev pub dropped : Bool → ℤ → ℤ
dropped b z = if b then count_down z else z

up_again : (b : Bool) (z : ℤ) → count_up (dropped b z) ≡ (if b then z else count_up z)
up_again true z = ground arith
up_again false z = refl

pub batch-HasTotal :
    (a c : String) (t : StreamType) (room : ℕ) (z : ℤ) (v : Keyspace)
    → HasTotal (suc room) z v
    → HasTotal room (dropped (is_player t) z) (apply_all (batch_commands (identified a c t ∷ [])) v)
batch-HasTotal a c publisher room z v h = HasTotal_same room z v _ refl (HasTotal-weaken room z v h)
batch-HasTotal a c player room z v h =
    HasTotal_same room (count_down z) _ _ refl (HasTotal-down room z v h)

pub removal-HasTotal :
    (a c : String) (found : Option StreamTask) (room : ℕ) (z : ℤ) (v : Keyspace)
    → HasTotal (suc room) z v
    → HasTotal room (dropped (found_player found) z) (apply_all (removal_commands a c found) v)
removal-HasTotal a c none room z v h = HasTotal_same room z v _ refl (HasTotal-weaken room z v h)
removal-HasTotal a c (some t) room z v h = batch-HasTotal a c t.type room z v h

-- What `getPlayerTasks` and `getPlayerCount` read is as before.
abbrev pub SamePlayers : Keyspace → Keyspace → Type 0
SamePlayers v w =
    (b m : String) → w.set (build_player_set_key b) m ≡ v.set (build_player_set_key b) m

batch-SamePlayers :
    (a c : String) (t : StreamType) (v : Keyspace)
    → SamePlayers v (apply_all (batch_commands (identified a c t ∷ [])) v)
batch-SamePlayers a c publisher v b m = refl
batch-SamePlayers a c player v b m = refl

removal-SamePlayers :
    (a c : String) (found : Option StreamTask) (v : Keyspace)
    → SamePlayers v (apply_all (removal_commands a c found) v)
removal-SamePlayers a c none v b m = refl
removal-SamePlayers a c (some t) v b m = batch-SamePlayers a c t.type v b m

clear_player :
    (r : Redis) (t : StreamType) (task : StreamTask) (s : r.Server) (b : Bool)
    → t ≡ player
    → key_exists r ready (task_key_of task) s ≡ b
    → clear_by_type r t task s
      ≡ some (if b then (deregister_task r task.stream_name task.client_id s).1 else s)
unfolding clear_by_type
clear_player r t task s true is_player e = rw (is_player, e)
clear_player r t task s false is_player e = rw (is_player, e)

module _ (r : Redis) (l : Lawful r) (task : StreamTask) (s : r.Server) (o : l.Online s) (room : ℕ)
    (z : ℤ) (counted : HasTotal (suc (suc room)) z (l.view s)) where
  cleared :
      (b : Bool)
      → task.type ≡ player
      → (l.view s).has_hash (task_key_of task) ≡ b
      → (s' : r.Server) × (clear_old r task s ≡ some s')
        × l.Online s'
        × HasTotal
            (suc room)
            (dropped (b && found_player (task_at (l.view s) task.stream_name task.client_id)) z)
            (l.view s')
        × SamePlayers (l.view s) (l.view s')
  unfolding clear_old
  cleared true p e =
      let a = task.stream_name in
      let found = task_at (l.view s) a task.client_id in
      let cmds = removal_commands a task.client_id found in
      let drop : CanDrop (l.view s) =
        counts_lem _ z (l.view s) counted (negsuc 0) (omega arith) (omega arith) in
      let fit = removal-fits a task.client_id found (l.view s) drop in
      (
        sent_all r l cmds s,
        clear_player r task.type task s true p
              (key_exists-has_hash r l s o (task_key_of task) refl ∙ e)
            ∙ ap (λ q. some q.1) (deregister_task-sent_all r l s o a task.client_id drop),
        sent_all-online r l cmds s o fit,
        rw (view-sent_all r l cmds s o fit)
            (removal-HasTotal a task.client_id found (suc room) z (l.view s) counted),
        rw (view-sent_all r l cmds s o fit) (removal-SamePlayers a task.client_id found (l.view s)),
      )
  cleared false p e = (
    s,
    clear_player r task.type task s false p
        (key_exists-has_hash r l s o (task_key_of task) refl ∙ e),
    o,
    HasTotal-weaken (suc room) z (l.view s) counted,
    (λ b m. refl),
  )

  -- A player is registered, and the global counter goes up by one, unless there is the hash of the
  -- client as a player of the stream; then it stays. A client whose hash is gone is counted again,
  -- member or not. The sets that `getPlayerTasks` and `getPlayerCount` read do not change.
  pub register_task-player :
      (now : ℕ)
      → task.type ≡ player
      → IsClock now
      → IsStorable task
      → (s' : r.Server) × (register_task r now task s ≡ (true, s'))
        × l.Online s'
        × IsRegistered now task (l.view s')
        × HasTotal room (if has_player_hash (l.view s) task then z else count_up z) (l.view s')
        × SamePlayers (l.view s) (l.view s')
  unfolding register_task
  register_task-player now p clock ok =
      let (s0, e, o0, counted0, same) = cleared ((l.view s).has_hash (task_key_of task)) p refl in
      let b = has_player_hash (l.view s) task in
      let free =
        counts_lem _ (dropped b z) (l.view s0) counted0 (pos 1) (omega arith) (omega arith) in
      let seen = view-player r l now task s0 o0 clock free in
      (
        sent_all r l (player_commands now task) s0,
        rw (e, register_task) (store_task-player r l now task s0 o0 clock p free),
        online-player r l now task s0 o0 clock free,
        rw seen (player-IsRegistered now task (l.view s0) ok),
        rw (seen, ← up_again b z)
            (HasTotal_same room (count_up (dropped b z)) _ _ refl
              (HasTotal-up room (dropped b z) (l.view s0) counted0)),
        rw seen same,
      )

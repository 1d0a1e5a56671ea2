-- ===== src/State/Removed.antt =====
-- What `deregisterTasksBatch`, `deregisterTask` and `deregisterAllMembers` leave in the keyspace of
-- a server that is online.
use stream_gate.Base.{
  Bool-cases, inl, inr, String, ◌≡◌, refl, sym, ap, ◌∙◌, fun_ext, Bool, true, false, ◌||◌, Option,
  none, some, List, [], ◌∷◌, arith, if◌then◌else◌,
}
use stream_gate.Base.Text.{◌==◌, eq_refl, eq_iff}
use stream_gate.Task.{StreamTask, StreamType, publisher, player}
use stream_gate.Task.Fields.{deserialize_task}
use stream_gate.Task.Fields.RoundTrip.{deserialize_task_missing}
use stream_gate.Redis.{Redis}
use stream_gate.Redis.Keyspace.{Keyspace, apply_all}
use stream_gate.Redis.Lawful.{Lawful}
use stream_gate.Cache.Online.{sent_all, sent_all-online, view-sent_all}
use stream_gate.State.Keys.{build_task_key, member_key, build_active_publishers_key}
use stream_gate.State.Deregister.{TaskIdentifier, batch_commands, deregister_task}
use stream_gate.State.Removal.{
  CanDrop, identified, removal_commands, removal-fits, deregister_task-sent_all,
}
use stream_gate.State.View.{load, task_at, publisher_at}

-- One of the tasks is kept under this key.
abbrev pub listed : String → List TaskIdentifier → Bool
listed k [] = false
listed k (task ∷ tasks) = build_task_key task.stream_name task.client_id == k || listed k tasks

abbrev RemovesListed : List TaskIdentifier → Keyspace → Type 0
RemovesListed tasks v =
    (a c f : String)
    → (apply_all (batch_commands tasks) v).hash (build_task_key a c) f
      ≡ (if listed (build_task_key a c) tasks then none else v.hash (build_task_key a c) f)

one_removed :
    (n d : String) (t : StreamType) (tasks : List TaskIdentifier)
    → ((v : Keyspace) → RemovesListed tasks v)
    → (v : Keyspace) → RemovesListed (identified n d t ∷ tasks) v
one_removed n d publisher tasks rest v a c f = rest _ a c f ∙ ground arith
one_removed n d player tasks rest v a c f = rest _ a c f ∙ ground arith

-- A batch removes the hashes of the tasks it lists, and no other task's.
pub batch-RemovesListed : (tasks : List TaskIdentifier) (v : Keyspace) → RemovesListed tasks v
batch-RemovesListed [] v a c f = refl
batch-RemovesListed (task ∷ tasks) v a c f =
    one_removed task.stream_name task.client_id task.type tasks (batch-RemovesListed tasks) v a c f

if_listed :
    (b : Bool) (find : String → Option String)
    → deserialize_task (λ f. if b then none else find f)
      ≡ (if b then none else deserialize_task find)
if_listed true find = deserialize_task_missing (λ f. none) refl
if_listed false find = refl

pub batch-task_at :
    (tasks : List TaskIdentifier) (v : Keyspace) (a c : String)
    → task_at (apply_all (batch_commands tasks) v) a c
      ≡ (if listed (build_task_key a c) tasks then none else task_at v a c)
batch-task_at tasks v a c =
    ap deserialize_task (fun_ext (batch-RemovesListed tasks v a c))
    ∙ if_listed (listed (build_task_key a c) tasks) (v.hash (build_task_key a c))

-- What else is gone with a task that was found: its membership, and the stream if it was the
-- publisher's.
abbrev pub NotHeld : StreamType → String → Keyspace → Type 0
NotHeld publisher a v = (publisher_at v a ≡ none) × (v.set build_active_publishers_key a ≡ false)
NotHeld player a v = Unit

abbrev pub NotMember : Option StreamTask → String → String → Keyspace → Type 0
NotMember none a c v = Unit
NotMember (some task) a c v = (v.set (member_key a) c ≡ false) × NotHeld task.type a v

one-NotHeld :
    (a c : String) (t : StreamType) (v : Keyspace)
    → NotHeld t a (apply_all (batch_commands (identified a c t ∷ [])) v)
one-NotHeld a c publisher v = (rw (eq_refl a), rw (eq_refl a))
one-NotHeld a c player v = tt

one-NotMember :
    (a c : String) (t : StreamType) (v : Keyspace)
    → (apply_all (batch_commands (identified a c t ∷ [])) v).set (member_key a) c ≡ false
one-NotMember a c publisher v = rw (eq_refl a, eq_refl c)
one-NotMember a c player v = rw (eq_refl a, eq_refl c)

removal-NotMember :
    (found : Option StreamTask) (a c : String) (v : Keyspace)
    → NotMember found a c (apply_all (removal_commands a c found) v)
removal-NotMember none a c v = tt
removal-NotMember (some task) a c v = (one-NotMember a c task.type v, one-NotHeld a c task.type v)

gone_same :
    (v : Keyspace) (k j : String) → load v k ≡ none → load v j ≡ (if k == j then none else load v j)
gone_same v k j h = elim (Bool-cases (k == j)) [
  | inl e ↦ rw e (ap (load v) (sym ((eq_iff k j).0 e)) ∙ h)
  | inr e ↦ rw e refl
]

removal-task_at :
    (found : Option StreamTask) (a c b d : String) (v : Keyspace)
    → task_at v a c ≡ found
    → task_at (apply_all (removal_commands a c found) v) b d
      ≡ (if build_task_key a c == build_task_key b d then none else task_at v b d)
removal-task_at none a c b d v e = gone_same v (build_task_key a c) (build_task_key b d) e
removal-task_at (some task) a c b d v e =
    batch-task_at (identified a c task.type ∷ []) v b d ∙ ground arith

module _ (r : Redis) (l : Lawful r) (s : r.Server) (o : l.Online s) where
  -- The removal of a task succeeds whether or not there is one. Afterwards no task is found under
  -- the client, every task under another key is as before, and if there was one, the client is no
  -- member of the stream, and a stream that it published is not held.
  pub deregister_task_lem :
      (a c : String)
      → CanDrop (l.view s)
      → (s' : r.Server) × (deregister_task r a c s ≡ (true, s'))
        × l.Online s'
        × ((b d : String)
            → task_at (l.view s') b d
              ≡ (if build_task_key a c == build_task_key b d then none else task_at (l.view s) b d))
        × NotMember (task_at (l.view s) a c) a c (l.view s')
  deregister_task_lem a c drop =
      let found = task_at (l.view s) a c in
      let cmds = removal_commands a c found in
      let fit = removal-fits a c found (l.view s) drop in
      let seen = view-sent_all r l cmds s o fit in
      (
        sent_all r l cmds s,
        deregister_task-sent_all r l s o a c drop,
        sent_all-online r l cmds s o fit,
        (λ b d. rw seen (removal-task_at found a c b d (l.view s) refl)),
        rw seen (removal-NotMember found a c (l.view s)),
      )

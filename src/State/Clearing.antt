-- ===== src/State/Clearing.antt =====
-- `deregisterAllMembers` on a server that is online.
use stream_gate.Base.{
  ℕ, suc, ◌≤◌, String, ◌≡◌, refl, ap, ◌∙◌, Bool, true, false, Option, none, some, List, [], ◌∷◌,
  arith, length, if◌then◌else◌, ◌⊎◌, inl, inr, Bool-cases,
}
use stream_gate.Base.Int.{ℤ, negsuc}
use stream_gate.Base.Text.{◌==◌, ◌++◌, eq_refl, eq_iff}
use stream_gate.Task.{StreamTask, StreamType, publisher, player}
use stream_gate.Redis.{Redis, Command, del}
use stream_gate.Redis.Keyspace.{Keyspace, AllFit, apply, apply_all, contains}
use stream_gate.Redis.Lawful.{Lawful}
use stream_gate.Cache.{key_del}
use stream_gate.Cache.Online.{
  sent, sent_all, sent-online, view-sent, sent_all-online, view-sent_all,
}
use stream_gate.State.Keys.{build_task_key, member_key}
use stream_gate.State.Deregister.{
  TaskIdentifier, batch_commands, deregister_tasks_batch, cons_member, members_tasks, clear_members,
  deregister_all_members,
}
use stream_gate.State.Query.{get_stream_client_ids}
use stream_gate.State.Removal.{identified, deregister_tasks_batch-sent_all}
use stream_gate.State.Removed.{listed, batch-task_at}
use stream_gate.State.Totals.{
  HasTotal, HasTotal_same, HasTotal-down, HasTotal-weaken, counts_lem, count_down,
}
use stream_gate.State.View.{task_at, get_task-task_at, get_stream_client_ids-set}

one-AllFit :
    (n d : String) (t : StreamType) (tasks : List TaskIdentifier) (v : Keyspace) (z : ℤ)
    → ((w : Keyspace) (y : ℤ) → HasTotal (length tasks) y w → AllFit (batch_commands tasks) w)
    → HasTotal (suc (length tasks)) z v
    → AllFit (batch_commands (identified n d t ∷ tasks)) v
one-AllFit n d publisher tasks v z rest h =
    (refl, (refl, (refl, (refl, rest _ z (HasTotal_same _ z v _ refl (HasTotal-weaken _ z v h))))))
one-AllFit n d player tasks v z rest h = (
  refl,
  (
    refl,
    (
      counts_lem _ z v h (negsuc 0) (omega arith) (omega arith),
      rest _ (count_down z) (HasTotal_same _ (count_down z) _ _ refl (HasTotal-down _ z v h)),
    ),
  ),
)

batch-AllFit :
    (tasks : List TaskIdentifier) (v : Keyspace) (z : ℤ)
    → HasTotal (length tasks) z v
    → AllFit (batch_commands tasks) v
batch-AllFit [] v z h = tt
batch-AllFit (task ∷ tasks) v z h =
    one-AllFit task.stream_name task.client_id task.type tasks v z (batch-AllFit tasks) h

-- The tasks that are found of a list of clients.
abbrev tasks_in : Redis → Keyspace → String → List String → List TaskIdentifier
tasks_in r v a [] = []
tasks_in r v a (c ∷ cs) = cons_member r a c (task_at v a c) (tasks_in r v a cs)

module _ (r : Redis) (a c : String) where
  listed_tail :
      (d : String) (found : Option StreamTask) (tasks : List TaskIdentifier)
      → listed (build_task_key a c) tasks ≡ true
      → listed (build_task_key a c) (cons_member r a d found tasks) ≡ true
  listed_tail d none tasks h = h
  listed_tail d (some t) tasks h = ground (arith, h)

  listed_head :
      (found : Option StreamTask) (tasks : List TaskIdentifier) (t : StreamTask)
      → found ≡ some t
      → listed (build_task_key a c) (cons_member r a c found tasks) ≡ true
  listed_head none tasks t e = cc
  listed_head (some u) tasks t e = rw (eq_refl (a ++ ":" ++ c))

  listed_in :
      (v : Keyspace) (t : StreamTask) (cs : List String)
      → task_at v a c ≡ some t
      → contains c cs ≡ true
      → listed (build_task_key a c) (tasks_in r v a cs) ≡ true
  listed_in v t [] e h = cc
  listed_in v t (d ∷ cs) e h = elim (Bool-cases (d == c)) [
    | inl same ↦ rw ((eq_iff d c).0 same) (listed_head (task_at v a c) (tasks_in r v a cs) t e)
    | inr other ↦
        listed_tail d (task_at v a d) (tasks_in r v a cs)
          (listed_in v t cs e (ground (arith, h, other)))
  ]

  one_short :
      (d : String) (tasks : List TaskIdentifier) (n : ℕ) (found : Option StreamTask)
      → length tasks ≤ n
      → length (cons_member r a d found tasks) ≤ suc n
  one_short d tasks n none h = omega (arith, h)
  one_short d tasks n (some t) h = omega (arith, h)

  tasks_short : (v : Keyspace) (cs : List String) → length (tasks_in r v a cs) ≤ length cs
  tasks_short v [] = omega arith
  tasks_short v (d ∷ cs) = one_short d _ _ (task_at v a d) (tasks_short v cs)

HasTotal_fewer : (n m : ℕ) (z : ℤ) (v : Keyspace) → n ≤ m → HasTotal m z v → HasTotal n z v
HasTotal_fewer n m z v le h = record {
  shown = h.shown;
  above = omega (arith, le, h.above);
  below = omega (arith, le, h.below);
}

some_unless :
    (b : Bool) (found : Option StreamTask)
    → ((t : StreamTask) → found ≡ some t → b ≡ true)
    → (if b then none else found) ≡ none
some_unless true found h = refl
some_unless false none h = refl
some_unless false (some t) h = let e : false ≡ true = h t refl in cc

kept_or_gone :
    (b : Bool) (found : Option StreamTask)
    → ((if b then none else found) ≡ none) ⊎ ((if b then none else found) ≡ found)
kept_or_gone true found = inl refl
kept_or_gone false found = inr refl

module _ (r : Redis) (l : Lawful r) (s : r.Server) (o : l.Online s) (a : String) where
  members_tasks-tasks_in : (cs : List String) → members_tasks r a cs s ≡ tasks_in r (l.view s) a cs
  unfolding members_tasks
  members_tasks-tasks_in [] = refl
  members_tasks-tasks_in (c ∷ cs) =
      rw (get_task-task_at r l s o a c, members_tasks-tasks_in cs, members_tasks)

  batch_any :
      (tasks : List TaskIdentifier)
      → AllFit (batch_commands tasks) (l.view s)
      → (deregister_tasks_batch r tasks s).1 ≡ sent_all r l (batch_commands tasks) s
  unfolding deregister_tasks_batch
  batch_any [] f = refl
  batch_any (task ∷ tasks) f = ap (λ p. p.1) (deregister_tasks_batch-sent_all r l s o task tasks f)

  clear_members-sent_all :
      (cs : List String)
      → AllFit (batch_commands (tasks_in r (l.view s) a cs)) (l.view s)
      → clear_members r a cs s ≡ sent_all r l (batch_commands (tasks_in r (l.view s) a cs)) s
  unfolding clear_members
  clear_members-sent_all [] f = refl
  clear_members-sent_all (c ∷ cs) f =
      ap (λ ts. (deregister_tasks_batch r ts s).1) (members_tasks-tasks_in (c ∷ cs))
      ∙ batch_any (tasks_in r (l.view s) a (c ∷ cs)) f

  abbrev ids : List String
  ids = get_stream_client_ids r a s

  abbrev clearing : List Command
  clearing = batch_commands (tasks_in r (l.view s) a ids)

  abbrev cleared : r.Server
  cleared = sent r l (del (member_key a)) (sent_all r l clearing s)

  deregister_all_members-cleared :
      AllFit clearing (l.view s) → deregister_all_members r a s ≡ cleared
  unfolding deregister_all_members key_del
  deregister_all_members-cleared f =
      rw (clear_members-sent_all ids f, key_del, deregister_all_members)

  -- When a stream ends, every client that was a member of it loses its task and the stream has no
  -- member left; any other task is gone or as it was. The counter must stay within 64 bits if every
  -- member is taken off it.
  pub deregister_all_members_lem :
      (z : ℤ)
      → HasTotal (length (get_stream_client_ids r a s)) z (l.view s)
      → l.Online (deregister_all_members r a s)
        × ((c : String)
            → (l.view s).set (member_key a) c ≡ true
            → task_at (l.view (deregister_all_members r a s)) a c ≡ none)
        × ((c : String) → (l.view (deregister_all_members r a s)).set (member_key a) c ≡ false)
        × ((b c : String)
            → (task_at (l.view (deregister_all_members r a s)) b c ≡ none)
              ⊎ (task_at (l.view (deregister_all_members r a s)) b c ≡ task_at (l.view s) b c))
  deregister_all_members_lem z room =
      let fit : AllFit clearing (l.view s) =
        batch-AllFit (tasks_in r (l.view s) a ids) (l.view s) z
          (HasTotal_fewer _ _ z (l.view s) (tasks_short r a a (l.view s) ids) room) in
      let middle = sent_all-online r l clearing s o fit in
      let seen : l.view cleared ≡ apply (del (member_key a)) (apply_all clearing (l.view s)) =
        view-sent r l (del (member_key a)) (sent_all r l clearing s) middle refl
        ∙ ap (apply (del (member_key a))) (view-sent_all r l clearing s o fit) in
      let e = deregister_all_members-cleared fit in
      (
        rw e (sent-online r l (del (member_key a)) (sent_all r l clearing s) middle refl),
        (λ c m.
            rw (e, seen)
              (batch-task_at (tasks_in r (l.view s) a ids) (l.view s) a c
                ∙ some_unless _ (task_at (l.view s) a c) (λ t found.
                  listed_in r a c (l.view s) t ids found
                    (get_stream_client_ids-set r l s o a c ∙ m)))),
        (λ c. rw (e, seen, eq_refl a)),
        (λ b c.
            rw (e, seen, batch-task_at (tasks_in r (l.view s) a ids) (l.view s) b c)
              (kept_or_gone (listed (build_task_key b c) (tasks_in r (l.view s) a ids))
                (task_at (l.view s) b c))),
      )

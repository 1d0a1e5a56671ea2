-- ===== src/Cache/Online.antt =====
-- The cache manager on a server that is online: each operation is its Redis command, and what it
-- returns is read off the keyspace.
use stream_gate.Base.{ℕ, String, ◌≡◌, refl, ap, ◌∙◌, true, some, List, [], ◌∷◌, arith, is_some}
use stream_gate.Base.Fields.{Fields}
use stream_gate.Base.Int.{ℤ, pos}
use stream_gate.Redis.{Redis, Command, hset, hincrby, sadd, zadd, zrem, expire, send_all}
use stream_gate.Redis.Keyspace.{hashes, sets, scores, kind_of, fits, AllFit, apply, apply_all}
use stream_gate.Redis.Lawful.{Lawful}
use stream_gate.Cache.{
  ready, hash_set, hash_incr_by, set_add, zset_add, zset_rem, key_expire, key_exists, run_pipeline,
}

module _ (r : Redis) (l : Lawful r) where
  open l use {Online, view}

  abbrev pub sent : Command → r.Server → r.Server
  sent c s = (r.send c s).1

  abbrev pub sent_all : List Command → r.Server → r.Server
  sent_all [] s = s
  sent_all (c ∷ cs) s = sent_all cs (sent c s)

  pub sent-online :
      (c : Command) (s : r.Server) → Online s → fits c (view s) ≡ true → Online (sent c s)
  sent-online c s o f = (l.send_law c s o f).3.1

  pub view-sent :
      (c : Command) (s : r.Server)
      → Online s
      → fits c (view s) ≡ true
      → view (sent c s) ≡ apply c (view s)
  view-sent c s o f = (l.send_law c s o f).3.0

  pub sent_all-online :
      (cs : List Command) (s : r.Server) → Online s → AllFit cs (view s) → Online (sent_all cs s)
  sent_all-online [] s o f = o
  sent_all-online (c ∷ cs) s o f =
      sent_all-online cs (sent c s) (sent-online c s o f.0) (rw (view-sent c s o f.0) f.1)

  pub view-sent_all :
      (cs : List Command) (s : r.Server)
      → Online s
      → AllFit cs (view s)
      → view (sent_all cs s) ≡ apply_all cs (view s)
  view-sent_all [] s o f = refl
  view-sent_all (c ∷ cs) s o f =
      view-sent_all cs (sent c s) (sent-online c s o f.0) (rw (view-sent c s o f.0) f.1)
      ∙ ap (apply_all cs) (view-sent c s o f.0)

  send_all-replies :
      (cs : List Command) (s : r.Server)
      → Online s
      → AllFit cs (view s)
      → (rs : List ℤ) × (send_all r.send cs s ≡ (some rs, sent_all cs s))
  send_all-replies [] s o f = ([], refl)
  send_all-replies (c ∷ cs) s o f =
      let (n, replied, _, _) = l.send_law c s o f.0 in
      let (rs, rest) =
        send_all-replies cs (sent c s) (sent-online c s o f.0) (rw (view-sent c s o f.0) f.1) in
      (n ∷ rs, rw (replied, ap (λ p. p.0) rest, ap (λ p. p.1) rest))

  pub run_pipeline-sent_all :
      (cs : List Command) (s : r.Server)
      → Online s
      → AllFit cs (view s)
      → (rs : List ℤ) × (run_pipeline r ready cs s ≡ (some rs, sent_all cs s))
  unfolding run_pipeline
  run_pipeline-sent_all cs s o f =
      let (rs, e) = send_all-replies cs s o f in (rs, l.exec_law cs s o f ∙ e)

  module _ (s : r.Server) (o : Online s) where
    pub hash_set-sent :
        (k : String) (fs : Fields)
        → fits (hset k fs) (view s) ≡ true
        → hash_set r ready k fs s ≡ (true, sent (hset k fs) s)
    unfolding hash_set
    hash_set-sent k fs e = let (n, replied, _, _) = l.send_law (hset k fs) s o e in rw replied

    pub hash_incr_by-sent :
        (k g : String) (d : ℤ) → (hash_incr_by r ready k g d s).1 ≡ sent (hincrby k g d) s
    unfolding hash_incr_by
    hash_incr_by-sent k g d = refl

    pub set_add-sent :
        (k m : String) → kind_of k ≡ sets → set_add r ready k m s ≡ (true, sent (sadd k (m ∷ [])) s)
    unfolding set_add
    set_add-sent k m e =
        let (n, replied, _, _) = l.send_law (sadd k (m ∷ [])) s o (rw e) in rw replied

    pub zset_add-sent :
        (k m : String) (n : ℕ)
        → kind_of k ≡ scores
        → zset_add r ready k n m s ≡ (true, sent (zadd k m n) s)
    unfolding zset_add
    zset_add-sent k m n e =
        let (n, replied, _, _) = l.send_law (zadd k m n) s o (rw e) in rw replied

    pub zset_rem-sent :
        (k m : String)
        → kind_of k ≡ scores
        → zset_rem r ready k m s ≡ (is_some ((view s).score k m), sent (zrem k m) s)
    unfolding zset_rem
    zset_rem-sent k m e =
        let (n, replied, counted, _) = l.send_law (zrem k m) s o (rw e) in rw replied (ground arith)

    pub key_expire-sent :
        (k : String)
        → kind_of k ≡ hashes
        → key_expire r ready k (pos 60) s ≡ ((view s).has_hash k, sent (expire k 60) s)
    unfolding key_expire
    key_expire-sent k e =
        let (n, replied, counted, _) = l.send_law (expire k 60) s o (rw e) in
        rw replied (ground arith)

    pub key_exists-has_hash :
        (k : String) → kind_of k ≡ hashes → key_exists r ready k s ≡ (view s).has_hash k
    unfolding key_exists
    key_exists-has_hash k e = rw (l.exists_law k s o e) (ground arith)

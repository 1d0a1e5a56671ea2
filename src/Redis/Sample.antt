-- ===== src/Redis/Sample.antt =====
-- A server in memory that does what `Lawful` asks: each key's fields, members and scores are a
-- list, newest first.
use stream_gate.Base.{
  ℕ, String, ◌≡◌, refl, ap, fun_ext, Bool, true, false, ◌&&◌, ◌||◌, Option, none, some, List, [],
  ◌∷◌, arith, if◌then◌else◌,
}
use stream_gate.Base.Decimal.{to_string_ℤ}
use stream_gate.Base.Fields.{Fields, lookup, or_else}
use stream_gate.Base.Int.{ℤ, pos, leb_ℤ, ◌+ℤ◌}
use stream_gate.Base.Text.{◌==◌, eq_iff}
use stream_gate.Redis.{
  Redis, Command, hset, hdel, hincrby, sadd, srem, zadd, zrem, expire, del, setex, send_all,
}
use stream_gate.Redis.Keyspace.{Keyspace, apply, Replies, contains, field_int}
use stream_gate.Redis.Lawful.{Lawful, in_bounds}

pub record Memory : Type 0 where
  pub hashes : String → Fields
  pub live : String → Bool
  pub sets : String → List String
  pub scores : String → List (String × ℕ)
  pub texts : String → Option String

abbrev append {ℓ} : {A : Type ℓ} → List A → List A → List A
append [] ys = ys
append (x ∷ xs) ys = x ∷ append xs ys

abbrev without : String → List String → List String
without m [] = []
without m (x ∷ xs) = let rest = without m xs in if m == x then rest else x ∷ rest

abbrev drop_field : String → Fields → Fields
drop_field m [] = []
drop_field m ((x, n) ∷ xs) = let rest = drop_field m xs in if m == x then rest else (x, n) ∷ rest

abbrev drop_score : String → List (String × ℕ) → List (String × ℕ)
drop_score m [] = []
drop_score m ((x, n) ∷ xs) = let rest = drop_score m xs in if m == x then rest else (x, n) ∷ rest

abbrev score_of : String → List (String × ℕ) → Option ℕ
score_of m [] = none
score_of m ((x, n) ∷ xs) = if x == m then some n else score_of m xs

abbrev range : ℤ → ℤ → List (String × ℕ) → List String
range lo hi [] = []
range lo hi ((x, n) ∷ xs) =
    let rest = without x (range lo hi xs) in
    if leb_ℤ lo (pos n) && leb_ℤ (pos n) hi then x ∷ rest else rest

abbrev look : Memory → Keyspace
look s = record {
  hash = λ k f. lookup f (s.hashes k);
  has_hash = s.live;
  set = λ k m. contains m (s.sets k);
  score = λ k m. score_of m (s.scores k);
  text = s.texts;
}

abbrev act : Command → Memory → Memory
act (hset k fs) s = record s {
  hashes = λ j. if k == j then append fs (s.hashes j) else s.hashes j;
  live = λ j. k == j || s.live j;
}
act (hdel k g) s = record s {
  hashes = λ j. if k == j then drop_field g (s.hashes j) else s.hashes j;
}
act (hincrby k g d) s = record s {
  hashes = λ j.
      if k == j
      then (g, to_string_ℤ (field_int (lookup g (s.hashes k)) +ℤ d)) ∷ s.hashes j
      else s.hashes j;
  live = λ j. k == j || s.live j;
}
act (sadd k ms) s = record s { sets = λ j. if k == j then append ms (s.sets j) else s.sets j }
act (srem k m) s = record s { sets = λ j. if k == j then without m (s.sets j) else s.sets j }
act (zadd k m n) s = record s { scores = λ j. if k == j then (m, n) ∷ s.scores j else s.scores j }
act (zrem k m) s = record s {
  scores = λ j. if k == j then drop_score m (s.scores j) else s.scores j;
}
act (expire k t) s = s
act (del k) s = record {
  hashes = λ j. if k == j then [] else s.hashes j;
  live = λ j. if k == j then false else s.live j;
  sets = λ j. if k == j then [] else s.sets j;
  scores = λ j. if k == j then [] else s.scores j;
  texts = λ j. if k == j then none else s.texts j;
}
act (setex k t x) s = record s { texts = λ j. if k == j then some x else s.texts j }

abbrev answer : Command → Memory → ℤ
answer (hincrby k g d) s = field_int (lookup g (s.hashes k)) +ℤ d
answer (srem k m) s = if contains m (s.sets k) then pos 1 else pos 0
answer (zrem k m) s = elim (score_of m (s.scores k)) [ none ↦ pos 0 | some _ ↦ pos 1 ]
answer (expire k t) s = if s.live k then pos 1 else pos 0
answer _ s = pos 0

abbrev respond : Command → Memory → Option ℤ × Memory
respond c s = (some (answer c s), act c s)

abbrev pub sample : Redis
sample = record {
  Server = Memory;
  ping = λ s. some "PONG";
  get = λ k s. some (s.texts k);
  hgetall = λ k s. some (s.hashes k);
  smembers = λ k s. some (s.sets k);
  scard = λ k s. some 0;
  exists = λ k s. some (elim (s.live k) [ true ↦ 1 | false ↦ 0 ]);
  zrangebyscore = λ k lo hi s. some (range lo hi (s.scores k));
  send = respond;
  exec = send_all respond;
}

abbrev pub empty : Memory
empty = record {
  hashes = λ k. [];
  live = λ k. false;
  sets = λ k. [];
  scores = λ k. [];
  texts = λ k. none;
}

lookup-append :
    (f : String) (xs ys : Fields) → lookup f (append xs ys) ≡ or_else (lookup f xs) (lookup f ys)
lookup-append f [] ys = refl
lookup-append f ((x, n) ∷ xs) ys = ground (arith, lookup-append f xs ys)

contains-append :
    (m : String) (xs ys : List String)
    → contains m (append xs ys) ≡ (contains m xs || contains m ys)
contains-append m [] ys = refl
contains-append m (x ∷ xs) ys = ground (arith, contains-append m xs ys)

contains-without :
    (m x : String) (xs : List String)
    → contains m (without x xs) ≡ (if x == m then false else contains m xs)
contains-without m x [] = ground arith
contains-without m x (y ∷ xs) =
    ground (arith, eq_iff x m, eq_iff x y, eq_iff y m, contains-without m x xs)

score_of-drop_score :
    (m x : String) (xs : List (String × ℕ))
    → score_of m (drop_score x xs) ≡ (if x == m then none else score_of m xs)
score_of-drop_score m x [] = ground arith
score_of-drop_score m x ((y, n) ∷ xs) =
    ground (arith, eq_iff x m, eq_iff x y, eq_iff y m, score_of-drop_score m x xs)

lookup-drop_field :
    (m x : String) (xs : Fields)
    → lookup m (drop_field x xs) ≡ (if x == m then none else lookup m xs)
lookup-drop_field m x [] = ground arith
lookup-drop_field m x ((y, n) ∷ xs) =
    ground (arith, eq_iff x m, eq_iff x y, eq_iff y m, lookup-drop_field m x xs)

pub contains-range :
    (lo hi : ℤ) (m : String) (xs : List (String × ℕ))
    → contains m (range lo hi xs) ≡ in_bounds lo hi (score_of m xs)
contains-range lo hi m [] = refl
contains-range lo hi m ((x, n) ∷ xs) =
    ground (arith, contains-without m x (range lo hi xs), contains-range lo hi m xs)

module _ (s : Memory) (k : String) where
  hset-hash : (fs : Fields) → (look (act (hset k fs) s)).hash ≡ (apply (hset k fs) (look s)).hash
  hset-hash fs = fun_ext λ j. fun_ext λ f. ground (arith, lookup-append f fs (s.hashes j))

  hdel-hash : (g : String) → (look (act (hdel k g) s)).hash ≡ (apply (hdel k g) (look s)).hash
  hdel-hash g = fun_ext λ j. fun_ext λ f. ground (arith, lookup-drop_field f g (s.hashes j))

  hincrby-hash :
      (g : String) (d : ℤ)
      → (look (act (hincrby k g d) s)).hash ≡ (apply (hincrby k g d) (look s)).hash
  hincrby-hash g d = fun_ext λ j. fun_ext λ f. ground arith

  sadd-set : (ms : List String) → (look (act (sadd k ms) s)).set ≡ (apply (sadd k ms) (look s)).set
  sadd-set ms = fun_ext λ j. fun_ext λ m. ground (arith, contains-append m ms (s.sets j))

  srem-set : (x : String) → (look (act (srem k x) s)).set ≡ (apply (srem k x) (look s)).set
  srem-set x = fun_ext λ j. fun_ext λ m. ground (arith, contains-without m x (s.sets j))

  zadd-score :
      (x : String) (n : ℕ) → (look (act (zadd k x n) s)).score ≡ (apply (zadd k x n) (look s)).score
  zadd-score x n = fun_ext λ j. fun_ext λ m. ground arith

  zrem-score : (x : String) → (look (act (zrem k x) s)).score ≡ (apply (zrem k x) (look s)).score
  zrem-score x = fun_ext λ j. fun_ext λ m. ground (arith, score_of-drop_score m x (s.scores j))

  del-parts : look (act (del k) s) ≡ apply (del k) (look s)
  del-parts = λ i. record {
    hash =
        fun_ext {f = (look (act (del k) s)).hash} {g = (apply (del k) (look s)).hash}
          (λ j. fun_ext λ f. ground arith) i;
    has_hash = λ j. if k == j then false else s.live j;
    set =
        fun_ext {f = (look (act (del k) s)).set} {g = (apply (del k) (look s)).set}
          (λ j. fun_ext λ m. ground arith) i;
    score =
        fun_ext {f = (look (act (del k) s)).score} {g = (apply (del k) (look s)).score}
          (λ j. fun_ext λ m. ground arith) i;
    text = λ j. if k == j then none else s.texts j;
  }

pub look-act : (c : Command) (s : Memory) → look (act c s) ≡ apply c (look s)
look-act (hset k fs) s =
    ap (λ h. record (look s) { hash = h; has_hash = λ j. k == j || s.live j }) (hset-hash s k fs)
look-act (hdel k g) s = ap (λ h. record (look s) { hash = h }) (hdel-hash s k g)
look-act (hincrby k g d) s =
    ap (λ h. record (look s) { hash = h; has_hash = λ j. k == j || s.live j })
      (hincrby-hash s k g d)
look-act (sadd k ms) s = ap (λ h. record (look s) { set = h }) (sadd-set s k ms)
look-act (srem k x) s = ap (λ h. record (look s) { set = h }) (srem-set s k x)
look-act (zadd k x n) s = ap (λ h. record (look s) { score = h }) (zadd-score s k x n)
look-act (zrem k x) s = ap (λ h. record (look s) { score = h }) (zrem-score s k x)
look-act (expire k t) s = refl
look-act (del k) s = del-parts s k
look-act (setex k t x) s = refl

pub answer-Replies : (c : Command) (s : Memory) → Replies c (look s) (answer c s)
answer-Replies (hset k fs) s = tt
answer-Replies (hdel k g) s = tt
answer-Replies (hincrby k g d) s = refl
answer-Replies (sadd k ms) s = tt
answer-Replies (srem k x) s = refl
answer-Replies (zadd k x n) s = tt
answer-Replies (zrem k x) s = refl
answer-Replies (expire k t) s = refl
answer-Replies (del k) s = tt
answer-Replies (setex k t x) s = tt

abbrev pub sample_lawful : Lawful sample
sample_lawful = record {
  Online = λ s. Unit {0};
  view = look;
  ping_law = λ s o. refl;
  get_law = λ k s o e. refl;
  hgetall_law = λ k s o e. (s.hashes k, refl, λ f. refl);
  smembers_law = λ k s o e. (s.sets k, refl, λ m. refl);
  exists_law = λ k s o e. refl;
  zrangebyscore_law =
      λ k lo hi s o e. (range lo hi (s.scores k), refl, λ m. contains-range lo hi m (s.scores k));
  send_law = λ c s o e. (answer c s, refl, answer-Replies c s, (look-act c s, tt));
  exec_law = λ cs s o e. refl;
}

-- ===== src/Redis/Keyspace.antt =====
-- What a Redis server is documented to hold, and what each command does to it. The program keeps
-- hashes, sets, a sorted set and texts under keys that begin differently.
use stream_gate.Base.{
  ℕ, ◌-◌, ◌^◌, String, Bool, true, false, ◌&&◌, ◌||◌, not, Option, none, some, List, [], ◌∷◌, eqb,
  value_or, ◌≡◌, if◌then◌else◌,
}
use stream_gate.Base.Decimal.{stoll, to_string_ℤ}
use stream_gate.Base.Fields.{lookup, or_else}
use stream_gate.Base.Int.{ℤ, pos, negsuc, ◌+ℤ◌, leb_ℤ}
use stream_gate.Base.Text.{◌==◌, starts_with}
use stream_gate.Redis.{Command, hset, hdel, hincrby, sadd, srem, zadd, zrem, expire, del, setex}

pub record Keyspace : Type 0 where
  pub hash : String → String → Option String
  pub has_hash : String → Bool
  pub set : String → String → Bool
  pub score : String → String → Option ℕ
  pub text : String → Option String

abbrev pub contains : String → List String → Bool
contains m [] = false
contains m (x ∷ xs) = x == m || contains m xs

-- HINCRBY counts from 0 if the field is missing.
abbrev pub field_int : Option String → ℤ
field_int none = pos 0
field_int (some t) = value_or (stoll t) (pos 0)

abbrev pub apply : Command → Keyspace → Keyspace
apply (hset k fs) v = record v {
  hash = λ j f. if k == j then or_else (lookup f fs) (v.hash j f) else v.hash j f;
  has_hash = λ j. k == j || v.has_hash j;
}
apply (hdel k g) v = record v { hash = λ j f. if k == j && g == f then none else v.hash j f }
apply (hincrby k g d) v = record v {
  hash = λ j f.
      if k == j && g == f then some (to_string_ℤ (field_int (v.hash k g) +ℤ d)) else v.hash j f;
  has_hash = λ j. k == j || v.has_hash j;
}
apply (sadd k ms) v = record v { set = λ j m. (k == j && contains m ms) || v.set j m }
apply (srem k x) v = record v { set = λ j m. if k == j && x == m then false else v.set j m }
apply (zadd k x n) v = record v { score = λ j m. if k == j && x == m then some n else v.score j m }
apply (zrem k x) v = record v { score = λ j m. if k == j && x == m then none else v.score j m }
apply (expire k t) v = v
apply (del k) v = record {
  hash = λ j f. if k == j then none else v.hash j f;
  has_hash = λ j. if k == j then false else v.has_hash j;
  set = λ j m. if k == j then false else v.set j m;
  score = λ j m. if k == j then none else v.score j m;
  text = λ j. if k == j then none else v.text j;
}
apply (setex k t x) v = record v { text = λ j. if k == j then some x else v.text j }

abbrev pub apply_all : List Command → Keyspace → Keyspace
apply_all [] v = v
apply_all (c ∷ cs) v = apply_all cs (apply c v)

-- The kind of value that the program keeps under a key.
pub data Kind : Type 0 where
  hashes sets scores texts : Kind

abbrev pub kind_of : String → Kind
kind_of k =
    if starts_with k "task:" || starts_with k "pub:" || k == "global_players"
    then hashes
    else if starts_with k "stream:members:" || starts_with k "players:" || k == "active_pubs"
    then sets
    else if k == "task_timestamps"
    then scores
    else texts

abbrev is_hashes : Kind → Bool
is_hashes hashes = true
is_hashes _ = false

abbrev is_sets : Kind → Bool
is_sets sets = true
is_sets _ = false

abbrev is_scores : Kind → Bool
is_scores scores = true
is_scores _ = false

abbrev is_texts : Kind → Bool
is_texts texts = true
is_texts _ = false

-- HINCRBY refuses a field that is no integer, and a result that is no 64-bit one.
abbrev pub is_int64 : ℤ → Bool
is_int64 z = leb_ℤ (negsuc (2 ^ 63 - 1)) z && leb_ℤ z (pos (2 ^ 63 - 1))

abbrev sum_fits : Option ℤ → ℤ → Bool
sum_fits none d = false
sum_fits (some z) d = is_int64 (z +ℤ d)

abbrev pub counts : Option String → ℤ → Bool
counts none d = is_int64 d
counts (some t) d = sum_fits (stoll t) d

-- The command meets a key of its own kind, so that Redis does not answer WRONGTYPE, and has the
-- fields and members that its syntax asks for.
abbrev pub fits : Command → Keyspace → Bool
fits (hset k []) v = false
fits (hset k (f ∷ fs)) v = is_hashes (kind_of k)
fits (hdel k g) v = false
fits (hincrby k g d) v = is_hashes (kind_of k) && counts (v.hash k g) d
fits (sadd k []) v = false
fits (sadd k (m ∷ ms)) v = is_sets (kind_of k)
fits (srem k m) v = is_sets (kind_of k)
fits (zadd k m n) v = is_scores (kind_of k)
fits (zrem k m) v = is_scores (kind_of k)
fits (expire k t) v = is_hashes (kind_of k) && not (eqb t 0)
fits (del k) v = true
fits (setex k t x) v = is_texts (kind_of k) && not (eqb t 0)

abbrev pub AllFit : List Command → Keyspace → Type 0
AllFit [] v = Unit {0}
AllFit (c ∷ cs) v = (fits c v ≡ true) × AllFit cs (apply c v)

-- The integer replies that the program looks at.
abbrev pub Replies : Command → Keyspace → ℤ → Type 0
Replies (hincrby k g d) v n = n ≡ field_int (v.hash k g) +ℤ d
Replies (srem k x) v n = n ≡ (if v.set k x then pos 1 else pos 0)
Replies (zrem k x) v n = n ≡ elim (v.score k x) [ none ↦ pos 0 | some _ ↦ pos 1 ]
Replies (expire k t) v n = n ≡ (if v.has_hash k then pos 1 else pos 0)
Replies _ v n = Unit

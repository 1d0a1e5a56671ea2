-- ===== src/ConfigLoader/Lookup.antt =====
-- Which of the files and the environment a setting comes from.
use stream_gate.Base.{
  String, ◌≡◌, ◌∙◌, sym, refl, ap, Bool, true, false, ◌||◌, ◌&&◌, Option, none, some, List, [], ◌∷◌,
  arith, if◌then◌else◌,
}
use stream_gate.Base.Fields.{Fields, lookup, insert, or_else, lookup-insert}
use stream_gate.Base.Text.{◌==◌, eq_iff, is_empty}
use stream_gate.ConfigLoader.{
  LoadOptions, load_env_to_map, put, choose_keys, next_config, override, parse_text,
}
use stream_gate.ConfigLoader.Files.{lines, parse_lines}
use stream_gate.ConfigLoader.Lines.{parse_line, add_entry, is_comment, trim, unquote}
use stream_gate.Hook.Params.{split_at}

or_else_assoc : (a b c : Option String) → or_else a (or_else b c) ≡ or_else (or_else a b) c
or_else_assoc none b c = refl
or_else_assoc (some x) b c = refl

-- What a key has after an addition to a map, by what it has after the same addition to none.
abbrev Adds : String → (Fields → Fields) → Fields → Type 0
Adds k f m = lookup k (f m) ≡ or_else (lookup k (f [])) (lookup k m)

insert-Adds : (k key value : String) (m : Fields) → Adds k (insert key value) m
insert-Adds k key value m =
    ground (arith, lookup-insert key k value m, lookup-insert key k value [])

named-Adds :
    (k key value : String) (b : Bool) (m : Fields)
    → Adds k (λ n. if b then n else insert key value n) m
named-Adds k key value true m = refl
named-Adds k key value false m = insert-Adds k key value m

entry-Adds :
    (k : String) (entry : Option (String × String)) (m : Fields) → Adds k (add_entry entry) m
entry-Adds k none m = refl
entry-Adds k (some (left, right)) m =
    named-Adds k (trim left) (unquote right) (is_empty (trim left)) m

guarded-Adds :
    (k : String) (b : Bool) (entry : Option (String × String)) (m : Fields)
    → Adds k (λ n. if b then n else add_entry entry n) m
guarded-Adds k true entry m = refl
guarded-Adds k false entry m = entry-Adds k entry m

line-Adds : (k line : String) (m : Fields) → Adds k (parse_line line) m
unfolding parse_line
line-Adds k line m = guarded-Adds k (is_comment (trim line)) (split_at "=" (trim line)) m

lines-Adds : (k : String) (ls : List String) (m : Fields) → Adds k (parse_lines ls) m
lines-Adds k [] m = refl
lines-Adds k (line ∷ rest) m =
    lines-Adds k rest (parse_line line m)
    ∙ ap (or_else (lookup k (parse_lines rest []))) (line-Adds k line m)
    ∙ or_else_assoc (lookup k (parse_lines rest [])) (lookup k (parse_line line [])) (lookup k m)
    ∙ ap (λ o. or_else o (lookup k m)) (sym (lines-Adds k rest (parse_line line [])))

abbrev pub listed : String → List String → Bool
listed k [] = false
listed k (key ∷ keys) = key == k || listed k keys

-- What the environment has for a key that is asked for.
abbrev pub from_environment : (String → Option String) → List String → String → Option String
from_environment getenv keys k = if listed k keys then getenv k else none

lookup-put :
    (k key : String) (value : Option String) (m : Fields)
    → lookup k (put key value m) ≡ or_else (if key == k then value else none) (lookup k m)
lookup-put k key none m = ground arith
lookup-put k key (some value) m = ground (arith, lookup-insert key k value m)

same_value :
    (getenv : String → Option String) (k key : String) (b : Bool)
    → (key == k) ≡ b
    → (if b then getenv key else none) ≡ (if b then getenv k else none)
same_value getenv k key true e = ap getenv ((eq_iff key k).0 e)
same_value getenv k key false e = refl

or_twice :
    (b c : Bool) (o rest : Option String)
    → or_else (if c then o else none) (or_else (if b then o else none) rest)
      ≡ or_else (if b || c then o else none) rest
or_twice true true none rest = refl
or_twice true true (some x) rest = refl
or_twice true false o rest = refl
or_twice false true o rest = refl
or_twice false false o rest = refl

env_lookup :
    (getenv : String → Option String) (k : String) (keys : List String) (m : Fields)
    → lookup k (load_env_to_map getenv keys m)
      ≡ or_else (from_environment getenv keys k) (lookup k m)
env_lookup getenv k [] m = refl
env_lookup getenv k (key ∷ keys) m =
    env_lookup getenv k keys (put key (getenv key) m)
    ∙ ap (or_else (from_environment getenv keys k)) (
        lookup-put k key (getenv key) m
        ∙ ap (λ o. or_else o (lookup k m)) (same_value getenv k key (key == k) refl))
    ∙ or_twice (key == k) (listed k keys) (getenv k) (lookup k m)

-- What the text of a file has for a key; a file that is not there has nothing.
abbrev pub from_text : Option String → String → Option String
from_text none k = none
from_text (some text) k = lookup k (parse_lines (lines text) [])

-- A file that is there, or that may be missing.
abbrev pub can_go_on : Option String → Bool → Bool
can_go_on none optional = optional
can_go_on (some text) optional = true

-- The text of the second file; with no name there is none.
abbrev pub env_text : (String → Option String) → String → Option String
env_text open_file env = if is_empty env then none else open_file env

abbrev pub can_load : (String → Option String) → String → String → LoadOptions → Bool
can_load open_file ini env options =
    can_go_on (open_file ini) options.allow_missing_ini
    && (is_empty env || can_go_on (open_file env) options.allow_missing_env)

-- What a key has: in the environment, if that is looked at, or else in the second text, or else in
-- the first one.
abbrev pub layers :
    (String → Option String) → LoadOptions → Option String → Option String → String → Option String
layers getenv options first second k =
    or_else
      (if options.override_from_environment
        then from_environment getenv (choose_keys options.env_keys_to_load) k
        else none)
      (or_else (from_text second k) (from_text first k))

or_none : (o : Option String) → or_else o none ≡ o
or_none none = refl
or_none (some v) = refl

-- A text that can be gone on with is read, over the map that there was.
text-read :
    (o : Option String) (optional : Bool) (m : Fields)
    → can_go_on o optional ≡ true
    → (next : Fields) × (parse_text o optional m ≡ some next)
      × ((k : String) → lookup k next ≡ or_else (from_text o k) (lookup k m))
text-read none optional m h = (m, rw h refl, λ k. refl)
text-read (some text) optional m h =
    (parse_lines (lines text) m, refl, λ k. lines-Adds k (lines text) m)

module _ (open_file getenv : String → Option String) (options : LoadOptions) where
  env-read :
      (b : Bool) (o : Option String) (m : Fields)
      → (b || can_go_on o options.allow_missing_env) ≡ true
      → (next : Fields) × ((if b then some m else parse_text o options.allow_missing_env m)
          ≡ some next)
        × ((k : String)
            → lookup k next ≡ or_else (from_text (if b then none else o) k) (lookup k m))
  env-read true o m h = (m, refl, λ k. refl)
  env-read false o m h = text-read o options.allow_missing_env m h

  override-lookup :
      (b : Bool) (m : Fields) (k : String)
      → lookup k (if b then load_env_to_map getenv (choose_keys options.env_keys_to_load) m else m)
        ≡ or_else
            (if b then from_environment getenv (choose_keys options.env_keys_to_load) k else none)
            (lookup k m)
  override-lookup true m k = env_lookup getenv k (choose_keys options.env_keys_to_load) m
  override-lookup false m k = refl

  -- Where each file that is named can be read or may be missing, the settings are read; each of them
  -- is the environment's, if the options say that it overrides and the key is asked for and is
  -- there, or else the second file's, or else the first file's.
  pub next_config-lookup :
      (ini env : String)
      → can_load open_file ini env options ≡ true
      → (next : Fields) × (next_config open_file getenv ini env options ≡ some next)
        × ((k : String)
            → lookup k next ≡ layers getenv options (open_file ini) (env_text open_file env) k)
  unfolding next_config
  next_config-lookup ini env can =
      let (first, first_read, at_first) =
        text-read (open_file ini) options.allow_missing_ini [] (ground (arith, can)) in
      let (second, second_read, at_second) =
        env-read (is_empty env) (open_file env) first (ground (arith, can)) in
      let on = options.override_from_environment in
      (
        override open_file getenv options second,
        rw (first_read, second_read) refl,
        λ k.
            override-lookup on second k
            ∙ ap
                (or_else (
                  if on
                  then from_environment getenv (choose_keys options.env_keys_to_load) k
                  else none))
                (at_second k
                  ∙ ap (or_else (from_text (env_text open_file env) k))
                      (at_first k ∙ or_none (from_text (open_file ini) k))),
      )

  -- Where such a file is missing, there are no settings.
  pub next_config-none :
      (ini env : String)
      → can_load open_file ini env options ≡ false
      → next_config open_file getenv ini env options ≡ none
  unfolding next_config
  next_config-none ini env cannot = ground (arith, cannot)

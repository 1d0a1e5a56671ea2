-- ===== src/ConfigLoader.antt =====
-- src/util/ConfigLoader.cpp and include/ConfigLoader.h: the settings. The files and the environment
-- are parameters, as texts by name.
pub mod Lines
pub mod Files
pub mod Outcome
pub mod Lookup
pub mod Entry
use stream_gate.Base.{
  String, Bool, true, false, ◌||◌, Option, none, some, List, [], ◌∷◌, is_some, value_or,
  if◌then◌else◌,
}
use stream_gate.Base.Decimal.{stoi}
use stream_gate.Base.Fields.{Fields, lookup, insert}
use stream_gate.Base.Int.{ℤ}
use stream_gate.Base.Maybe.{◌>>=◌}
use stream_gate.Base.Text.{◌==◌, is_empty, to_lower}
use Files.{parse_lines, lines}

pub record LoadOptions : Type 0 where
  pub allow_missing_ini : Bool
  pub allow_missing_env : Bool
  pub override_from_environment : Bool
  pub env_keys_to_load : List String

abbrev pub default_options : LoadOptions
default_options = record {
  allow_missing_ini = false;
  allow_missing_env = true;
  override_from_environment = true;
  env_keys_to_load = [];
}

-- A validator that throws is `none`.
abbrev pub Validator : Type 0
Validator = String → Option Bool

pub record ConfigLoader : Type 0 where
  pub config_map : Fields
  pub last_ini_file : String
  pub last_env_file : String
  pub last_options : LoadOptions
  pub validators : List (String × Validator)

abbrev pub new_loader : ConfigLoader
new_loader = record {
  config_map = [];
  last_ini_file = "";
  last_env_file = "";
  last_options = default_options;
  validators = [];
}

-- `none`: a ConfigException.
unfoldable pub parse_bool : String → Option Bool
unfolding to_lower
parse_bool str =
    let lower = to_lower str in
    if lower == "true" || lower == "1" || lower == "yes" || lower == "on"
    then some true
    else if lower == "false" || lower == "0" || lower == "no" || lower == "off"
    then some false
    else none

abbrev pub get_default_env_keys : List String
get_default_env_keys =
    "DB_HOST" ∷ "DB_PORT" ∷ "DB_USER" ∷ "DB_PASS" ∷ "DB_NAME" ∷ "REDIS_HOST" ∷ "REDIS_PORT"
    ∷ "CACHE_TTL_SECONDS" ∷ "SERVER_PORT" ∷ "SERVER_ADDRESS" ∷ "SERVER_MAX_THREADS"
    ∷ "STREAM_SECRET_KEY" ∷ []

-- The text of a file, if it can be opened.
abbrev pub parse_text : Option String → Bool → Fields → Option Fields
parse_text none optional m = if optional then some m else none
parse_text (some text) optional m = some (parse_lines (lines text) m)

abbrev put : String → Option String → Fields → Fields
put key none m = m
put key (some value) m = insert key value m

abbrev pub load_env_to_map : (String → Option String) → List String → Fields → Fields
load_env_to_map getenv [] m = m
load_env_to_map getenv (key ∷ keys) m = load_env_to_map getenv keys (put key (getenv key) m)

-- One validator, on the value of its key.
abbrev pub check_value : Validator → Option String → Option Bool
check_value validator none = some false
check_value validator (some value) = validator value

abbrev pub validate_map : List (String × Validator) → Fields → Option Bool
validate_map [] m = some true
validate_map ((key, validator) ∷ rest) m =
    let others = validate_map rest m in
    (check_value validator (lookup key m) >>= λ ok. if ok then others else some false)

abbrev pub choose_keys : List String → List String
choose_keys [] = get_default_env_keys
choose_keys (key ∷ keys) = key ∷ keys

abbrev pub accept : String → String → LoadOptions → Fields → ConfigLoader → ConfigLoader
accept ini env options next l = record l {
  config_map = next;
  last_ini_file = ini;
  last_env_file = env;
  last_options = options;
}

abbrev pub commit :
    String → String → LoadOptions → Fields → Option Bool → ConfigLoader → Bool × ConfigLoader
commit ini env options next none l = (false, l)
commit ini env options next (some ok) l =
    if ok then (true, accept ini env options next l) else (false, l)

abbrev pub load_from :
    String → String → LoadOptions → Option Fields → ConfigLoader → Bool × ConfigLoader
load_from ini env options none l = (false, l)
load_from ini env options (some next) l =
    commit ini env options next (validate_map l.validators next) l

module _ (open_file : String → Option String) (getenv : String → Option String) where
  abbrev pub parse_file_to_map : String → Bool → Fields → Option Fields
  parse_file_to_map filename optional m = parse_text (open_file filename) optional m

  abbrev pub add_env_file : String → LoadOptions → Fields → Option Fields
  add_env_file env options m =
      if is_empty env then some m else parse_file_to_map env options.allow_missing_env m

  abbrev pub override : LoadOptions → Fields → Fields
  override options m =
      if options.override_from_environment
      then load_env_to_map getenv (choose_keys options.env_keys_to_load) m
      else m

  -- `nextConfig`, before it is validated.
  unfoldable pub next_config : String → String → LoadOptions → Option Fields
  next_config ini env options = do
    from_ini ← parse_file_to_map ini options.allow_missing_ini []
    from_files ← add_env_file env options from_ini
    some (override options from_files)

  unfoldable pub load : String → String → LoadOptions → ConfigLoader → Bool × ConfigLoader
  load ini env options l = load_from ini env options (next_config ini env options) l

  unfoldable pub reload : ConfigLoader → ConfigLoader
  unfolding load
  reload l = (load l.last_ini_file l.last_env_file l.last_options l).1

-- `none`: the call throws.
unfoldable pub get_string : String → ConfigLoader → Option String
get_string key l = lookup key l.config_map

unfoldable pub get_string_or : String → String → ConfigLoader → String
get_string_or key default l = value_or (lookup key l.config_map) default

unfoldable pub get_int : String → ConfigLoader → Option ℤ
unfolding get_string
get_int key l = (get_string key l >>= stoi)

unfoldable pub get_int_or : String → ℤ → ConfigLoader → ℤ
get_int_or key default l = value_or (lookup key l.config_map >>= stoi) default

unfoldable pub get_bool : String → ConfigLoader → Option Bool
unfolding get_string
get_bool key l = (get_string key l >>= parse_bool)

unfoldable pub get_bool_or : String → Bool → ConfigLoader → Bool
get_bool_or key default l = value_or (lookup key l.config_map >>= parse_bool) default

-- `stod` and its results are parameters.
module _ {Double : Type 0} (stod : String → Option Double) where
  unfoldable pub get_double : String → ConfigLoader → Option Double
  unfolding get_string
  get_double key l = (get_string key l >>= stod)

  unfoldable pub get_double_or : String → Double → ConfigLoader → Double
  get_double_or key default l = value_or (lookup key l.config_map >>= stod) default

unfoldable pub has : String → ConfigLoader → Bool
has key l = is_some (lookup key l.config_map)

unfoldable pub set : String → String → ConfigLoader → ConfigLoader
set key value l = record l { config_map = insert key value l.config_map }

abbrev pub insert_validator :
    String → Validator → List (String × Validator) → List (String × Validator)
insert_validator key validator [] = (key, validator) ∷ []
insert_validator key validator ((other, v) ∷ rest) =
    if other == key
    then (key, validator) ∷ rest
    else (other, v) ∷ insert_validator key validator rest

unfoldable pub add_validator : String → Validator → ConfigLoader → ConfigLoader
add_validator key validator l = record l {
  validators = insert_validator key validator l.validators;
}

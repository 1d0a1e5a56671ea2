-- ===== src/Logger.antt =====
-- src/util/Logger.cpp and include/Logger.h: the log. What is written is the list of the writes, in
-- their order; which files can be opened and the time are parameters.
pub mod Written
pub mod FileName
use Prim.Native.Char.{code}
use Prim.Native.String.{[] as nil, ◌∷◌ as ◌∷ₛ◌}
use stream_gate.Base.{
  ℕ, String, Bool, true, false, ◌&&◌, not, Option, none, some, List, [], ◌∷◌, eqb, if◌then◌else◌,
}
use stream_gate.Base.Decimal.{to_string_ℤ}
use stream_gate.Base.Int.{ℤ, pos, negsuc, leb_ℤ, ltb_ℤ}
use stream_gate.Base.Text.{◌++◌, is_empty}

-- `other`: an enumeration holds any number that is cast to it.
pub data LogLevel : Type 0 where
  debug info warning error fatal : LogLevel
  other : ℤ → LogLevel

abbrev pub level_value : LogLevel → ℤ
level_value debug = pos 0
level_value info = pos 1
level_value warning = pos 2
level_value error = pos 3
level_value fatal = pos 4
level_value (other n) = n

abbrev pub below : LogLevel → LogLevel → Bool
below a b = ltb_ℤ (level_value a) (level_value b)

pub record Config : Type 0 where
  pub min_level : LogLevel
  pub log_to_console : Bool
  pub log_to_file : Bool
  pub log_file_path : String
  pub include_milliseconds : Bool

abbrev pub default_config : Config
default_config = record {
  min_level = info;
  log_to_console = true;
  log_to_file = false;
  log_file_path = "";
  include_milliseconds = true;
}

-- `_file_stream`: null, or a stream for the path, that is open or not.
pub data FileStream : Type 0 where
  no_stream : FileStream
  stream : String → Bool → FileStream

-- The level that is checked first is kept apart from the configuration.
pub record Logger : Type 0 where
  pub config : Config
  pub file_stream : FileStream
  pub min_level_copy : LogLevel

abbrev pub new_logger : Logger
new_logger = record { config = default_config; file_stream = no_stream; min_level_copy = info }

pub data Write : Type 0 where
  to_console : String → Write
  to_file : String → String → Write

unfoldable pub level_to_string : LogLevel → String
level_to_string debug = "DEBUG"
level_to_string info = "INFO "
level_to_string warning = "WARN "
level_to_string error = "ERROR"
level_to_string fatal = "FATAL"
level_to_string (other n) = "UNKNOWN"

-- The escape character in front of a colour.
abbrev pub escape : String → String
escape s = "\u{1b}" ++ s

unfoldable pub level_to_color_code : LogLevel → String
level_to_color_code debug = escape "[36m"
level_to_color_code info = escape "[32m"
level_to_color_code warning = escape "[33m"
level_to_color_code error = escape "[31m"
level_to_color_code fatal = escape "[35m"
level_to_color_code (other n) = escape "[0m"

-- `strrchr(file, '/')`, and what stands behind it.
abbrev pub after_last : String → Option String
after_last nil = none
after_last (c ∷ₛ s) = elim (after_last s) [
  | some rest ↦ some rest
  | none ↦ if eqb (code c) 47 then some s else none
]

unfoldable pub file_name : String → String
file_name file = elim (after_last file) [ some rest ↦ rest | none ↦ file ]

-- The place in the source, if it is given: a null pointer and a negative line are none.
unfoldable pub location : Option String → ℤ → String
unfolding file_name
location none line = ""
location (some file) line =
    if leb_ℤ (pos 0) line then "[" ++ file_name file ++ ":" ++ to_string_ℤ line ++ "]" else ""

-- `time`: what `get_timestamp` gives with and without milliseconds.
unfoldable pub log_entry : String → LogLevel → String → Option String → ℤ → String
unfolding level_to_string location
log_entry time level message file line =
    "[" ++ time ++ "][" ++ level_to_string level ++ "]" ++ location file line ++ message ++ "\n"

unfoldable pub write_console : Bool → LogLevel → String → List Write
unfolding level_to_color_code
write_console on level entry =
    if on then to_console (level_to_color_code level ++ entry ++ escape "[0m") ∷ [] else []

unfoldable pub write_file : Bool → FileStream → String → List Write
write_file on no_stream entry = []
write_file on (stream path is_open) entry = if on && is_open then to_file path entry ∷ [] else []

abbrev pub append : List Write → List Write → List Write
append [] ws = ws
append (w ∷ vs) ws = w ∷ append vs ws

unfoldable pub write_log :
    (Bool → String) → LogLevel → String → Option String → ℤ → Logger → List Write
unfolding log_entry write_console write_file
write_log time level message file line l =
    if below level l.min_level_copy
    then []
    else let entry = log_entry (time l.config.include_milliseconds) level message file line in
      append (write_console l.config.log_to_console level entry)
        (write_file l.config.log_to_file l.file_stream entry)

-- The macro LOG_BASE: the level is checked before the call, too.
unfoldable pub log_base :
    (Bool → String) → LogLevel → String → Option String → ℤ → Logger → List Write
unfolding write_log
log_base time level message file line l =
    if below level l.min_level_copy then [] else write_log time level message file line l

-- The log file is opened, if it is wanted and has a name; `opens` says whether that succeeds.
unfoldable pub open_file : (String → Bool) → Config → Logger → Logger × List Write
open_file opens config l =
    if config.log_to_file && not (is_empty config.log_file_path)
    then (if opens config.log_file_path
        then (record l { file_stream = stream config.log_file_path true }, [])
        else (
          record l {
            file_stream = stream config.log_file_path false;
            config = record config { log_to_file = false };
          },
          to_console ("[Logger] Failed to open: " ++ config.log_file_path ++ "\n") ∷ [],
        ))
    else (record l { file_stream = no_stream }, [])

unfoldable pub set_config : (String → Bool) → Config → Logger → Logger × List Write
unfolding open_file
set_config opens config l =
    open_file opens config (record l { config = config; min_level_copy = config.min_level })

unfoldable pub set_min_level : LogLevel → Logger → Logger
set_min_level level l = record l {
  config = record l.config { min_level = level };
  min_level_copy = level;
}

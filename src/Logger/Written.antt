-- ===== src/Logger/Written.antt =====
-- src/util/Logger.cpp: what of a message is written, and where.
use stream_gate.Base.{
  String, ◌≡◌, refl, Bool, true, false, ◌&&◌, not, Option, List, [], ◌∷◌, arith, if◌then◌else◌,
}
use stream_gate.Base.Int.{ℤ}
use stream_gate.Base.Text.{◌++◌, is_empty}
use stream_gate.Logger.{
  LogLevel, below, Config, Logger, Write, to_console, to_file, level_to_color_code, escape,
  log_entry, append, write_console, write_file, write_log, log_base, set_config,
}

-- Whether a configuration has a log file that can be written.
abbrev pub has_file : (String → Bool) → Config → Bool
has_file opens c = c.log_to_file && not (is_empty c.log_file_path) && opens c.log_file_path

-- The writes of an entry by a configuration.
abbrev pub writes_of : (String → Bool) → Config → LogLevel → String → List Write
writes_of opens c level entry =
    append
      (if c.log_to_console
        then to_console (level_to_color_code level ++ entry ++ escape "[0m") ∷ []
        else [])
      (if has_file opens c then to_file c.log_file_path entry ∷ [] else [])

if_twice :
    (b : Bool) (x y : List Write) → (if b then x else (if b then x else y)) ≡ (if b then x else y)
if_twice true x y = refl
if_twice false x y = refl

module _ (opens : String → Bool) (c : Config) (l : Logger) where
  set_config-level : (set_config opens c l).0.min_level_copy ≡ c.min_level
  unfolding set_config
  set_config-level = ground arith

  set_config-console : (set_config opens c l).0.config.log_to_console ≡ c.log_to_console
  unfolding set_config
  set_config-console = ground arith

  set_config-ms : (set_config opens c l).0.config.include_milliseconds ≡ c.include_milliseconds
  unfolding set_config
  set_config-ms = ground arith

  set_config-file :
      (entry : String)
      → write_file
          (set_config opens c l).0.config.log_to_file
          (set_config opens c l).0.file_stream
          entry
        ≡ (if has_file opens c then to_file c.log_file_path entry ∷ [] else [])
  unfolding set_config write_file
  set_config-file entry = ground arith

-- After a configuration is set, whatever the logger was before, a message below its level is
-- written nowhere; any other is written to the console, if the configuration says so, and to the
-- file, if the configuration says so and names one that can be opened.
pub log_base-set_config :
    (opens : String → Bool) (c : Config) (l : Logger) (time : Bool → String) (level : LogLevel)
    (message : String) (file : Option String) (line : ℤ)
    → log_base time level message file line (set_config opens c l).0 ≡ (
        if below level c.min_level
        then []
        else writes_of opens c level
            (log_entry (time c.include_milliseconds) level message file line))
unfolding log_base write_log write_console
log_base-set_config opens c l time level message file line =
    let q = (set_config opens c l).0 in
    let level_is : q.min_level_copy ≡ c.min_level = set_config-level opens c l in
    let console_is : q.config.log_to_console ≡ c.log_to_console = set_config-console opens c l in
    let ms_is : q.config.include_milliseconds ≡ c.include_milliseconds = set_config-ms opens c l in
    let entry = log_entry (time c.include_milliseconds) level message file line in
    rw (level_is, console_is, ms_is, set_config-file opens c l entry)
      (if_twice (below level c.min_level) [] (writes_of opens c level entry))

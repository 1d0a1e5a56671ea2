-- ===== src/Base/Fields.antt =====
-- std::unordered_map and std::map from text to text, as association lists read by key.
use mathlib.Core.Path.{◌≡◌, refl}
use mathlib.Core.List.{List, [], ◌∷◌}
use mathlib.Core.Option.{Option, none, some}
use native.Mathlib.Omega.{arith}
use Prim.Native.String.{String}
use stream_gate.Base.Tests.{if◌then◌else◌}
use stream_gate.Base.Text.{◌==◌, eq_iff}

abbrev pub Fields : Type 0
Fields = List (String × String)

module _ {V : Type 0} where
  -- `find`, `contains` and `at`
  abbrev pub lookup : String → List (String × V) → Option V
  lookup name [] = none
  lookup name (entry ∷ rest) = if entry.0 == name then some (entry.1) else lookup name rest

  abbrev pub or_else : Option V → Option V → Option V
  or_else none o = o
  or_else (some v) o = some v

  -- `fields[name] = value`: an entry that is there keeps its key, and a new one is put last.
  abbrev pub insert : String → V → List (String × V) → List (String × V)
  insert name value [] = (name, value) ∷ []
  insert name value (entry ∷ rest) =
      let later = insert name value rest in
      if entry.0 == name then (entry.0, value) ∷ rest else entry ∷ later

  pub lookup-insert :
      (name other : String) (value : V) (fields : List (String × V))
      → lookup other (insert name value fields)
        ≡ (if name == other then some value else lookup other fields)
  lookup-insert name other value [] = refl
  lookup-insert name other value ((key, old) ∷ rest) =
      let at_rest = lookup-insert name other value rest in
      ground (arith, at_rest, eq_iff key name, eq_iff key other, eq_iff name other)

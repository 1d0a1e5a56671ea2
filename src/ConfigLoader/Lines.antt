-- ===== src/ConfigLoader/Lines.antt =====
-- One line of a settings file, from src/util/ConfigLoader.cpp.
use Prim.Native.Char.{Char, code}
use Prim.Native.String.{[], ◌∷◌}
use stream_gate.Base.{String, Bool, ◌&&◌, ◌||◌, Option, true, none, some, eqb, if◌then◌else◌}
use stream_gate.Base.Fields.{Fields, insert}
use stream_gate.Base.Text.{is_empty}
use stream_gate.Hook.Params.{split_at}

-- One of " \t\n\r".
abbrev pub is_space : Char → Bool
is_space c = eqb (code c) 32 || eqb (code c) 9 || eqb (code c) 10 || eqb (code c) 13

abbrev pub trim_start : String → String
trim_start [] = []
trim_start (c ∷ s) = let rest = trim_start s in if is_space c then rest else c ∷ s

abbrev pub trim_end : String → String
trim_end [] = []
trim_end (c ∷ s) = let rest = trim_end s in if is_empty rest && is_space c then [] else c ∷ rest

unfoldable pub trim : String → String
trim str = trim_end (trim_start str)

-- A text as what stands before its last character, and that.
abbrev pub split_last : String → Option (String × Char)
split_last [] = none
split_last (c ∷ s) = elim (split_last s) [ none ↦ some ([], c) | some (t, d) ↦ some (c ∷ t, d) ]

abbrev is_quoted : Char → Char → Bool
is_quoted c d =
    (eqb (code c) (code "\"") && eqb (code d) (code "\""))
    || (eqb (code c) (code "'") && eqb (code d) (code "'"))

abbrev unquote_from : Char → String → Option (String × Char) → String
unquote_from c s none = c ∷ s
unquote_from c s (some (mid, d)) = if is_quoted c d then mid else c ∷ s

unfoldable pub unquote : String → String
unquote [] = []
unquote (c ∷ s) = unquote_from c s (split_last s)

abbrev pub is_newline : Char → Bool
is_newline c = eqb (code c) 10

abbrev pub is_comment : String → Bool
is_comment [] = true
is_comment (c ∷ s) = eqb (code c) (code "#") || eqb (code c) (code ";")

abbrev pub add_entry : Option (String × String) → Fields → Fields
add_entry none m = m
add_entry (some (left, right)) m =
    let key = trim left in if is_empty key then m else insert key (unquote right) m

unfoldable pub parse_line : String → Fields → Fields
unfolding trim unquote
parse_line line m = if is_comment (trim line) then m else add_entry (split_at "=" (trim line)) m

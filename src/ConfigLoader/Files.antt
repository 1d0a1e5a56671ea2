-- ===== src/ConfigLoader/Files.antt =====
-- The lines of a settings file, from src/util/ConfigLoader.cpp.
use Prim.Native.Char.{Char}
use Prim.Native.String.{[] as nil, ◌∷◌ as ◌∷ₛ◌}
use stream_gate.Base.{String, List, [], ◌∷◌, if◌then◌else◌}
use stream_gate.Base.Fields.{Fields}
use stream_gate.ConfigLoader.Lines.{is_newline, parse_line}

-- std::getline, until it fails.
abbrev cons_line : Char → List String → List String
cons_line c [] = (c ∷ₛ nil) ∷ []
cons_line c (line ∷ rest) = (c ∷ₛ line) ∷ rest

abbrev pub lines : String → List String
lines nil = []
lines (c ∷ₛ s) = let rest = lines s in if is_newline c then nil ∷ rest else cons_line c rest

abbrev pub parse_lines : List String → Fields → Fields
parse_lines [] m = m
parse_lines (line ∷ rest) m = parse_lines rest (parse_line line m)

-- ===== src/ConfigLoader/Entry.antt =====
-- A setting that is written to a file is read from it again.
use Prim.Native.Char.{Char}
use Prim.Native.String.{[], ◌∷◌}
use stream_gate.Base.{
  String, ◌≡◌, ◌∙◌, sym, refl, ap, Bool, true, false, ◌&&◌, not, some, arith, if◌then◌else◌,
}
use stream_gate.Base.Fields.{Fields, insert}
use stream_gate.Base.Text.{◌++◌, append_assoc, is_empty}
use stream_gate.ConfigLoader.Lines.{
  is_space, trim_start, trim_end, trim, split_last, unquote, is_comment, parse_line, add_entry,
}
use stream_gate.Hook.Params.{split_at, absent, split_at_first}

-- No character is white space.
abbrev pub is_solid : String → Bool
is_solid [] = true
is_solid (c ∷ s) = not (is_space c) && is_solid s

-- A key: not empty, not the start of a comment, without white space or an equals sign.
abbrev pub is_key : String → Bool
is_key key = not (is_comment key) && is_solid key && absent "=" key

trim_end-solid : (s : String) → is_solid s ≡ true → trim_end s ≡ s
trim_end-solid [] h = refl
trim_end-solid (c ∷ s) h = rw (trim_end-solid s (ground (arith, h))) (ground (arith, h))

trim-solid : (s : String) → is_solid s ≡ true → trim s ≡ s
unfolding trim
trim-solid [] h = refl
trim-solid (c ∷ s) h = ground (arith, h, trim_end-solid (c ∷ s) h)

quote_not_empty : (s : String) → is_empty (s ++ "\"") ≡ false
quote_not_empty [] = refl
quote_not_empty (c ∷ s) = refl

trim_end-quote : (s : String) → trim_end (s ++ "\"") ≡ s ++ "\""
trim_end-quote [] = refl
trim_end-quote (c ∷ s) = rw (trim_end-quote s) (ground (arith, quote_not_empty s))

split_last-quote : (s : String) → split_last (s ++ "\"") ≡ some (s, "\"")
split_last-quote [] = refl
split_last-quote (c ∷ s) = rw (split_last-quote s) refl

unquote-quote : (s : String) → unquote ("\"" ++ s ++ "\"") ≡ s
unfolding unquote
unquote-quote s = rw (split_last-quote s) refl

-- The line that sets a key to a text between quotes.
abbrev pub line_of : String → String → String
line_of key value = key ++ "=" ++ "\"" ++ value ++ "\""

trim_end-line : (key value : String) → trim_end (line_of key value) ≡ line_of key value
trim_end-line key value =
    let assoc = append_assoc key ("=" ++ "\"" ++ value) "\"" in
    ap trim_end (sym assoc) ∙ trim_end-quote (key ++ "=" ++ "\"" ++ value) ∙ assoc

trim_start_solid : (c : Char) (s : String) → is_space c ≡ false → trim_start (c ∷ s) ≡ c ∷ s
trim_start_solid c s h = ground (arith, h)

trim-line : (key value : String) → is_key key ≡ true → trim (line_of key value) ≡ line_of key value
unfolding trim
trim-line [] value h = cc
trim-line (c ∷ s) value h =
    ap trim_end (trim_start_solid c (s ++ "=" ++ "\"" ++ value ++ "\"") (ground (arith, h)))
    ∙ trim_end-line (c ∷ s) value

no_comment : (key rest : String) → is_key key ≡ true → is_comment (key ++ rest) ≡ false
no_comment [] rest h = cc
no_comment (c ∷ s) rest h = ground (arith, h)

not_empty : (key : String) → is_key key ≡ true → is_empty key ≡ false
not_empty [] h = cc
not_empty (c ∷ s) h = refl

parse_trimmed :
    (line trimmed left right : String) (m : Fields)
    → trim line ≡ trimmed
    → is_comment trimmed ≡ false
    → split_at "=" trimmed ≡ some (left, right)
    → parse_line line m ≡ add_entry (some (left, right)) m
unfolding parse_line
parse_trimmed line trimmed left right m e plain parts =
    ap (λ t. if is_comment t then m else add_entry (split_at "=" t) m) e ∙ rw (plain, parts) refl

add_named :
    (key left value right : String) (m : Fields)
    → trim left ≡ key
    → is_empty key ≡ false
    → unquote right ≡ value
    → add_entry (some (left, right)) m ≡ insert key value m
add_named key left value right m e full u =
    ap (λ t. if is_empty t then m else insert t (unquote right) m) e
    ∙ rw full (ap (λ v. insert key v m) u)

-- A line with a key and a text between quotes sets the key to that text, whatever the text is.
pub parse_line-line_of :
    (key value : String) (m : Fields)
    → is_key key ≡ true
    → parse_line (line_of key value) m ≡ insert key value m
parse_line-line_of key value m h =
    parse_trimmed (line_of key value) (line_of key value) key ("\"" ++ value ++ "\"") m
      (trim-line key value h) (no_comment key ("=" ++ "\"" ++ value ++ "\"") h)
      (split_at_first "=" key ("\"" ++ value ++ "\"") (ground (arith, h)))
    ∙ add_named key key value ("\"" ++ value ++ "\"") m (trim-solid key (ground (arith, h)))
        (not_empty key h) (unquote-quote value)

-- ===== src/Base/Text.antt =====
-- std::string, as the native text. Concatenation and comparison are by clauses, so that they
-- compute on a literal that is followed by a variable.
use Prim.Native.Char.{Char, code}
use Prim.Native.Nat.{ℕ, suc, ◌+◌}
use Prim.Native.String.{String, [], ◌∷◌}
use mathlib.Core.Path.{◌≡◌, refl, ap}
use mathlib.Core.Logic.{◌↔◌}
use mathlib.Core.Bool.{Bool, true, false, ◌&&◌, ◌||◌}
use text.Mathlib.TextEquality.{Char-path}
use native.Mathlib.Omega.{arith}
use stream_gate.Base.Tests.{eqb, ltb, if◌then◌else◌}

infixr 65 ◌++◌
abbrev pub ◌++◌ : String → String → String
[] ++ t = t
(c ∷ s) ++ t = c ∷ (s ++ t)

infix 50 ◌==◌
abbrev pub ◌==◌ : String → String → Bool
[] == [] = true
[] == (d ∷ t) = false
(c ∷ s) == [] = false
(c ∷ s) == (d ∷ t) = eqb (code c) (code d) && s == t

pub eq_refl : (s : String) → (s == s) ≡ true
eq_refl [] = refl
eq_refl (c ∷ s) = ground (arith, eq_refl s)

eq→path : (s t : String) → (s == t) ≡ true → s ≡ t
eq→path [] [] h = refl
eq→path [] (d ∷ t) h = cc
eq→path (c ∷ s) [] h = cc
eq→path (c ∷ s) (d ∷ t) h = cc (eq→path s t (ground arith), Char-path c d (ground arith))

path→eq : (s t : String) → s ≡ t → (s == t) ≡ true
path→eq s t e = rw e (eq_refl t)

pub eq_iff : (s t : String) → ((s == t) ≡ true) ↔ (s ≡ t)
eq_iff s t = (eq→path s t, path→eq s t)

-- `s.size()`
abbrev pub size : String → ℕ
size [] = 0
size (c ∷ s) = suc (size s)

pub size-append : (s t : String) → size (s ++ t) ≡ size s + size t
size-append [] t = omega arith
size-append (c ∷ s) t = omega (arith, size-append s t)

pub append_assoc : (s t u : String) → (s ++ t) ++ u ≡ s ++ (t ++ u)
append_assoc [] t u = refl
append_assoc (c ∷ s) t u = ap (λ r. c ∷ r) (append_assoc s t u)

-- `s.empty()`
abbrev pub is_empty : String → Bool
is_empty [] = true
is_empty (c ∷ s) = false

-- std::transform with ::tolower or ::toupper, in the C locale.
swap_case : String → String → Char → Char
swap_case [] to c = c
swap_case (u ∷ from) [] c = c
swap_case (u ∷ from) (l ∷ to) c = if eqb (code u) (code c) then l else swap_case from to c

map_text : (Char → Char) → String → String
map_text f [] = []
map_text f (c ∷ s) = f c ∷ map_text f s

unfoldable pub to_lower : String → String
unfolding swap_case map_text
to_lower = map_text (swap_case "ABCDEFGHIJKLMNOPQRSTUVWXYZ" "abcdefghijklmnopqrstuvwxyz")

unfoldable pub to_upper : String → String
unfolding swap_case map_text
to_upper = map_text (swap_case "abcdefghijklmnopqrstuvwxyz" "ABCDEFGHIJKLMNOPQRSTUVWXYZ")

-- `s.rfind(p, 0) == 0`
abbrev pub starts_with : String → String → Bool
starts_with s [] = true
starts_with [] (d ∷ p) = false
starts_with (c ∷ s) (d ∷ p) = eqb (code c) (code d) && starts_with s p

-- `s.find(p) != npos`
abbrev pub occurs : String → String → Bool
occurs p [] = starts_with [] p
occurs p (c ∷ s) = starts_with (c ∷ s) p || occurs p s

-- `s < t`; UTF-8 keeps the order of the code points.
abbrev pub text_lt : String → String → Bool
text_lt [] [] = false
text_lt [] (d ∷ t) = true
text_lt (c ∷ s) [] = false
text_lt (c ∷ s) (d ∷ t) = ltb (code c) (code d) || (eqb (code c) (code d) && text_lt s t)

pub text_lt_asymm : (s t : String) → text_lt s t ≡ true → text_lt t s ≡ false
text_lt_asymm [] [] h = refl
text_lt_asymm [] (d ∷ t) h = refl
text_lt_asymm (c ∷ s) [] h = cc
text_lt_asymm (c ∷ s) (d ∷ t) h = ground (arith, text_lt_asymm s t)

-- `t < s` does not hold: the order is total, so this is transitive.
pub text_le_trans :
    (s t u : String) → text_lt t s ≡ false → text_lt u t ≡ false → text_lt u s ≡ false
text_le_trans [] t [] h k = refl
text_le_trans [] [] (e ∷ u) h k = refl
text_le_trans [] (d ∷ t) (e ∷ u) h k = refl
text_le_trans (c ∷ s) [] u h k = cc
text_le_trans (c ∷ s) (d ∷ t) [] h k = cc
text_le_trans (c ∷ s) (d ∷ t) (e ∷ u) h k = ground (arith, text_le_trans s t u)

-- ===== src/Base/Decimal.antt =====
-- std::to_string on integers, and std::stoi and std::stoll (`none`: they throw).
use Prim.Native.Char.{Char, code}
use Prim.Native.Nat.{ℕ, zero, suc, ◌+◌, ◌-◌, ◌*◌, ◌/◌, ◌%◌, ◌^◌, ◌≤◌, ◌<◌}
use Prim.Native.String.{String, [], ◌∷◌}
use mathlib.Core.Path.{◌≡◌, refl, ap, ◌∙◌}
use mathlib.Core.Logic.{inl, inr}
use mathlib.Core.Bool.{Bool, true, false, ◌&&◌, ◌||◌}
use mathlib.Core.Option.{Option, none, some}
use native.Mathlib.Omega.{arith}
use stream_gate.Base.Tests.{eqb, ltb, leb, if◌then◌else◌, Bool-cases}
use stream_gate.Base.Text.{size}
use stream_gate.Base.Int.{ℤ, pos, negsuc, leb_ℤ}

digit : ℕ → Char
digit zero = "0"
digit (suc zero) = "1"
digit (suc (suc zero)) = "2"
digit (suc (suc (suc zero))) = "3"
digit (suc (suc (suc (suc zero)))) = "4"
digit (suc (suc (suc (suc (suc zero))))) = "5"
digit (suc (suc (suc (suc (suc (suc zero)))))) = "6"
digit (suc (suc (suc (suc (suc (suc (suc zero))))))) = "7"
digit (suc (suc (suc (suc (suc (suc (suc (suc zero)))))))) = "8"
digit _ = "9"

decimal_from : ℕ → ℕ → String → String
unfolding digit
decimal_from zero n acc = acc
decimal_from (suc f) n acc =
    let rest = decimal_from f (n / 10) (digit (n % 10) ∷ acc) in
    if ltb n 10 then digit n ∷ acc else rest

-- `n + 1` rounds are enough, since each round divides by ten.
unfoldable pub to_string : ℕ → String
unfolding decimal_from
to_string n = decimal_from (suc n) n ""

unfoldable pub to_string_ℤ : ℤ → String
unfolding to_string
to_string_ℤ (pos n) = to_string n
to_string_ℤ (negsuc n) = "-" ∷ to_string (suc n)

abbrev pub is_digit : Char → Bool
is_digit c = leb 48 (code c) && leb (code c) 57

is_space : Char → Bool
is_space c = eqb (code c) 32 || (leb 9 (code c) && leb (code c) 13)

-- The value of the leading digits, added to those read.
digits_value : ℕ → String → ℕ
digits_value acc [] = acc
digits_value acc (c ∷ s) =
    let rest = digits_value (acc * 10 + (code c - 48)) s in if is_digit c then rest else acc

starts_digit : String → Bool
starts_digit [] = false
starts_digit (c ∷ s) = is_digit c

unsigned : String → Option ℕ
unfolding digits_value starts_digit
unsigned s = if starts_digit s then some (digits_value 0 s) else none

negated : Option ℕ → Option ℤ
negated none = none
negated (some zero) = some (pos 0)
negated (some (suc n)) = some (negsuc n)

positive : Option ℕ → Option ℤ
positive none = none
positive (some n) = some (pos n)

signed : String → Option ℤ
unfolding negated positive unsigned
signed [] = none
signed (c ∷ s) =
    if eqb (code c) 45
    then negated (unsigned s)
    else if eqb (code c) 43
    then positive (unsigned s)
    else positive (unsigned (c ∷ s))

skip_space : String → String
skip_space [] = []
skip_space (c ∷ s) = let rest = skip_space s in if is_space c then rest else c ∷ s

in_range : ℤ → ℤ → Option ℤ → Option ℤ
in_range lo hi none = none
in_range lo hi (some z) = if leb_ℤ lo z && leb_ℤ z hi then some z else none

unfoldable pub stoi : String → Option ℤ
unfolding in_range signed skip_space is_space
stoi s = in_range (negsuc (2 ^ 31 - 1)) (pos (2 ^ 31 - 1)) (signed (skip_space s))

unfoldable pub stoll : String → Option ℤ
unfolding in_range signed skip_space is_space
stoll s = in_range (negsuc (2 ^ 63 - 1)) (pos (2 ^ 63 - 1)) (signed (skip_space s))

code-digit : (d : ℕ) → d < 10 → code (digit d) ≡ 48 + d
unfolding digit
code-digit zero h = refl
code-digit (suc zero) h = refl
code-digit (suc (suc zero)) h = refl
code-digit (suc (suc (suc zero))) h = refl
code-digit (suc (suc (suc (suc zero)))) h = refl
code-digit (suc (suc (suc (suc (suc zero))))) h = refl
code-digit (suc (suc (suc (suc (suc (suc zero)))))) h = refl
code-digit (suc (suc (suc (suc (suc (suc (suc zero))))))) h = refl
code-digit (suc (suc (suc (suc (suc (suc (suc (suc zero)))))))) h = refl
code-digit (suc (suc (suc (suc (suc (suc (suc (suc (suc zero))))))))) h = refl
code-digit (suc (suc (suc (suc (suc (suc (suc (suc (suc (suc n)))))))))) h = absurd (omega arith)

is_digit-digit : (d : ℕ) → d < 10 → is_digit (digit d) ≡ true
is_digit-digit d h = ground (arith, code-digit d h)

digits_value-digit :
    (a d : ℕ) (s : String) → d < 10 → digits_value a (digit d ∷ s) ≡ digits_value (a * 10 + d) s
unfolding digits_value
digits_value-digit a d s h =
    rw (is_digit-digit d h) (ap (λ v. digits_value v s) (omega (arith, code-digit d h)))

digits_value-decimal_from :
    (f n : ℕ) (acc : String) → n < f → digits_value 0 (decimal_from f n acc) ≡ digits_value n acc
unfolding decimal_from
digits_value-decimal_from zero n acc h = absurd (omega arith)
digits_value-decimal_from (suc f) n acc h = elim (Bool-cases (ltb n 10)) [
  | inl small ↦
      rw small
        (digits_value-digit 0 n acc (ground arith) ∙ ap (λ v. digits_value v acc) (omega arith))
  | inr large ↦ rw large (
      digits_value-decimal_from f (n / 10) (digit (n % 10) ∷ acc) (ground arith)
      ∙ digits_value-digit (n / 10) (n % 10) acc (omega arith)
      ∙ ap (λ v. digits_value v acc) (omega arith))
]

-- A number below 10^k has at most k digits.
abbrev pub ten_to : ℕ → ℕ
ten_to zero = 1
ten_to (suc k) = 10 * ten_to k

size-decimal_from :
    (k f n : ℕ) (acc : String)
    → n < f
    → n < 10 * ten_to k
    → size (decimal_from f n acc) ≤ suc k + size acc
unfolding decimal_from
size-decimal_from k zero n acc lt small = absurd (omega arith)
size-decimal_from zero (suc f) n acc lt small =
    let one : ltb n 10 ≡ true = ground arith in rw one (omega arith)
size-decimal_from (suc k) (suc f) n acc lt small = elim (Bool-cases (ltb n 10)) [
  | inl one ↦ rw one (omega arith)
  | inr more ↦
      let rest =
        size-decimal_from k f (n / 10) (digit (n % 10) ∷ acc) (ground arith) (omega arith) in
      rw more (omega (arith, rest))
]

pub size-to_string : (k n : ℕ) → n < 10 * ten_to k → size (to_string n) ≤ suc k
unfolding to_string
size-to_string k n small = omega (arith, size-decimal_from k (suc n) n "" (omega arith) small)

starts_digit-decimal_from :
    (f n : ℕ) (acc : String) → starts_digit acc ≡ true → starts_digit (decimal_from f n acc) ≡ true
unfolding decimal_from starts_digit
starts_digit-decimal_from zero n acc h = h
starts_digit-decimal_from (suc f) n acc h = elim (Bool-cases (ltb n 10)) [
  | inl small ↦ rw small (is_digit-digit n (ground arith))
  | inr large ↦ rw large (
      starts_digit-decimal_from f (n / 10) (digit (n % 10) ∷ acc)
        (is_digit-digit (n % 10) (omega arith)))
]

starts_digit-to_string : (n : ℕ) → starts_digit (to_string n) ≡ true
unfolding to_string decimal_from starts_digit
starts_digit-to_string n = elim (Bool-cases (ltb n 10)) [
  | inl small ↦ rw small (is_digit-digit n (ground arith))
  | inr large ↦ rw large (
      starts_digit-decimal_from n (n / 10) (digit (n % 10) ∷ "")
        (is_digit-digit (n % 10) (omega arith)))
]

unsigned-to_string : (n : ℕ) → unsigned (to_string n) ≡ some n
unfolding unsigned to_string digits_value
unsigned-to_string n =
    rw (starts_digit-to_string n) (ap some (digits_value-decimal_from (suc n) n "" (omega arith)))

-- A text that starts with a digit has neither white space nor a sign in front.
signed-skip_space :
    (s : String) → starts_digit s ≡ true → signed (skip_space s) ≡ positive (unsigned s)
unfolding signed skip_space is_space starts_digit
signed-skip_space [] h = cc
signed-skip_space (c ∷ s) h = ground arith

signed-to_string : (n : ℕ) → signed (skip_space (to_string n)) ≡ some (pos n)
unfolding positive
signed-to_string n =
    signed-skip_space (to_string n) (starts_digit-to_string n) ∙ ap positive (unsigned-to_string n)

signed-minus : (n : ℕ) → signed (skip_space ("-" ∷ to_string (suc n))) ≡ some (negsuc n)
unfolding signed skip_space is_space negated
signed-minus n = ap negated (unsigned-to_string (suc n))

signed-to_string_ℤ : (z : ℤ) → signed (skip_space (to_string_ℤ z)) ≡ some z
unfolding to_string_ℤ
signed-to_string_ℤ (pos n) = signed-to_string n
signed-to_string_ℤ (negsuc n) = signed-minus n

pub stoll-to_string : (n : ℕ) → n < 2 ^ 63 → stoll (to_string n) ≡ some (pos n)
unfolding stoll in_range
stoll-to_string n h = rw (signed-to_string n) (ground arith)

-- int: what std::to_string prints, std::stoi reads back.
pub stoi-to_string_ℤ :
    (z : ℤ)
    → leb_ℤ (negsuc (2 ^ 31 - 1)) z ≡ true
    → leb_ℤ z (pos (2 ^ 31 - 1)) ≡ true
    → stoi (to_string_ℤ z) ≡ some z
unfolding stoi in_range
stoi-to_string_ℤ z l u = rw (signed-to_string_ℤ z) (ground arith)

-- long long: what std::to_string prints, std::stoll reads back.
pub stoll-to_string_ℤ :
    (z : ℤ)
    → leb_ℤ (negsuc (2 ^ 63 - 1)) z ≡ true
    → leb_ℤ z (pos (2 ^ 63 - 1)) ≡ true
    → stoll (to_string_ℤ z) ≡ some z
unfolding stoll in_range
stoll-to_string_ℤ z l u = rw (signed-to_string_ℤ z) (ground arith)

-- std::stoull accepts a sign: a negative number wraps around. `none`: it throws.
wrapped : Option ℤ → Option ℕ
wrapped none = none
wrapped (some (pos n)) = if ltb n (2 ^ 64) then some n else none
wrapped (some (negsuc n)) = if ltb (suc n) (2 ^ 64) then some (2 ^ 64 - suc n) else none

unfoldable pub stoull : String → Option ℕ
unfolding wrapped signed skip_space is_space
stoull s = wrapped (signed (skip_space s))

pub stoull-to_string_ℤ_neg :
    (n : ℕ) → suc n < 2 ^ 64 → stoull (to_string_ℤ (negsuc n)) ≡ some (2 ^ 64 - suc n)
unfolding stoull wrapped
stoull-to_string_ℤ_neg n h = rw (signed-to_string_ℤ (negsuc n)) (ground arith)

pub stoull-to_string_ℤ_pos : (n : ℕ) → n < 2 ^ 64 → stoull (to_string_ℤ (pos n)) ≡ some n
unfolding stoull wrapped
stoull-to_string_ℤ_pos n h = rw (signed-to_string_ℤ (pos n)) (ground arith)

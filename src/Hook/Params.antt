-- ===== src/Hook/Params.antt =====
-- `parse_url_params` of src/util/ZlmHookCommon.cpp.
use Prim.Native.Char.{Char, code}
use Prim.Native.String.{[], ◌∷◌}
use stream_gate.Base.{
  ℕ, zero, suc, String, ◌≡◌, refl, Bool, true, ◌&&◌, not, Option, none, some, eqb, arith,
  if◌then◌else◌,
}
use stream_gate.Base.Fields.{Fields, insert}
use stream_gate.Base.Text.{size, ◌++◌}

-- `s.find(c)`, as what stands before the first `c` and after it.
abbrev push : Char → Option (String × String) → Option (String × String)
push c none = none
push c (some (s, t)) = some (c ∷ s, t)

abbrev pub split_at : Char → String → Option (String × String)
split_at c [] = none
split_at c (d ∷ s) =
    let rest = split_at c s in if eqb (code d) (code c) then some ([], s) else push d rest

-- A value goes up to the next '&' or to the end; `none`: nothing is left to parse.
abbrev pub value_of : String → String × Option String
value_of s = elim (split_at "&" s) [ none ↦ (s, none) | some (v, rest) ↦ (v, some rest) ]

-- The loop, on what stands from `pos` on. A round takes at least one character.
unfoldable pub parse_from : ℕ → String → Fields → Fields
parse_from zero s out = out
parse_from (suc n) s out = elim (split_at "=" s) [
  | none ↦ out
  | some (key, rest) ↦ elim (value_of rest).1 [
    | none ↦ insert key (value_of rest).0 out
    | some left ↦ parse_from n left (insert key (value_of rest).0 out)
  ]
]

unfoldable pub parse_url_params : String → Fields → Fields
unfolding parse_from
parse_url_params query out = parse_from (size query) query out

abbrev pub absent : Char → String → Bool
absent c [] = true
absent c (d ∷ s) = not (eqb (code d) (code c)) && absent c s

pub split_at-absent : (c : Char) (s : String) → absent c s ≡ true → split_at c s ≡ none
split_at-absent c [] h = refl
split_at-absent c (d ∷ s) h =
    let e = split_at-absent c s (ground (arith, h)) in rw e (ground (arith, h))

pub split_at_first :
    (c : Char) (s t : String) → absent c s ≡ true → split_at c (s ++ (c ∷ t)) ≡ some (s, t)
split_at_first c [] t h = ground arith
split_at_first c (d ∷ s) t h =
    let e = split_at_first c s t (ground (arith, h)) in rw e (ground (arith, h))

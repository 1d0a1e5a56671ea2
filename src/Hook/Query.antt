-- ===== src/Hook/Query.antt =====
-- A query text that is put together by the usual rules is taken apart again by `parse_url_params`.
use stream_gate.Base.{
  ℕ, zero, suc, ◌≤◌, String, ◌≡◌, refl, ap, true, none, some, All, arith, List, [], ◌∷◌,
}
use stream_gate.Base.Fields.{Fields, insert}
use stream_gate.Base.Text.{size, size-append, ◌++◌}
use stream_gate.Hook.Params.{
  absent, split_at-absent, split_at_first, value_of, parse_from, parse_url_params,
}

-- A key has no '=', a value no '&'.
abbrev pub IsPlain : String × String → Type 0
IsPlain p = (absent "=" p.0 ≡ true) × (absent "&" p.1 ≡ true)

-- "k1=v1&k2=v2"
abbrev pub encode : List (String × String) → String
encode [] = ""
encode (p ∷ ps) = elim ps [ [] ↦ p.0 ++ "=" ++ p.1 | _ ↦ p.0 ++ "=" ++ p.1 ++ "&" ++ encode ps ]

abbrev pub insert_all : List (String × String) → Fields → Fields
insert_all [] out = out
insert_all (p ∷ ps) out = insert_all ps (insert p.0 p.1 out)

value_last : (v : String) → absent "&" v ≡ true → value_of v ≡ (v, none)
value_last v h = rw (value_of, split_at-absent "&" v h)

value_more : (v s : String) → absent "&" v ≡ true → value_of (v ++ "&" ++ s) ≡ (v, some s)
value_more v s h = rw (value_of, split_at_first "&" v s h)

-- The loop, with enough fuel.
parse_from-encode :
    (n : ℕ) (ps : List (String × String)) (out : Fields)
    → All IsPlain ps
    → size (encode ps) ≤ n
    → parse_from n (encode ps) out ≡ insert_all ps out
unfolding parse_from
parse_from-encode zero [] out plain enough = refl
parse_from-encode (suc n) [] out plain enough = refl
parse_from-encode zero (p ∷ []) out plain enough =
    ground (arith, size-append p.0 ("=" ++ p.1), enough)
parse_from-encode (suc n) (p ∷ []) out plain enough = rw (
  parse_from,
  split_at_first "=" p.0 p.1 plain.0.0,
  ap (λ x. x.1) (value_last p.1 plain.0.1),
  ap (λ x. x.0) (value_last p.1 plain.0.1),
)
parse_from-encode zero (p ∷ q ∷ ps) out plain enough =
    ground (arith, size-append p.0 ("=" ++ p.1 ++ "&" ++ encode (q ∷ ps)), enough)
parse_from-encode (suc n) (p ∷ q ∷ ps) out plain enough =
    let rest = encode (q ∷ ps) in
    rw
      (
        parse_from,
        split_at_first "=" p.0 (p.1 ++ "&" ++ rest) plain.0.0,
        ap (λ x. x.1) (value_more p.1 rest plain.0.1),
        ap (λ x. x.0) (value_more p.1 rest plain.0.1),
      )
      (parse_from-encode n (q ∷ ps) (insert p.0 p.1 out) plain.1 (
        omega (
          arith,
          enough,
          size-append p.0 ("=" ++ p.1 ++ "&" ++ rest),
          size-append p.1 ("&" ++ rest),
        )))

-- Keys without '=' and values without '&' are read back from the text that joins them, in order; a
-- key that comes twice keeps its last value.
pub parse_url_params-encode :
    (ps : List (String × String)) (out : Fields)
    → All IsPlain ps
    → parse_url_params (encode ps) out ≡ insert_all ps out
unfolding parse_url_params
parse_url_params-encode ps out plain =
    parse_from-encode (size (encode ps)) ps out plain (omega arith)

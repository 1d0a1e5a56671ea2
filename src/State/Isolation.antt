-- ===== src/State/Isolation.antt =====
-- When the keys of two tasks differ.
use Prim.Native.Char.{code}
use Prim.Native.String.{[], ◌∷◌}
use stream_gate.Base.{String, ◌≡◌, refl, sym, ◌∙◌, Bool, true, ◌&&◌, not, eqb, arith}
use stream_gate.Base.Text.{◌==◌, ◌++◌, eq_iff}
use stream_gate.State.Keys.{build_task_key}

abbrev pub has_no_colon : String → Bool
has_no_colon [] = true
has_no_colon (c ∷ s) = not (eqb (code c) (code ":")) && has_no_colon s

colon_free :
    (a b c d : String)
    → has_no_colon a ≡ true
    → has_no_colon b ≡ true
    → (a ++ ":" ++ c == b ++ ":" ++ d) ≡ (a == b && c == d)
colon_free [] [] c d h k = refl
colon_free [] (y ∷ b) c d h k = ground (arith, k)
colon_free (x ∷ a) [] c d h k = ground (arith, h)
colon_free (x ∷ a) (y ∷ b) c d h k =
    let rest = colon_free a b c d (ground (arith, h)) (ground (arith, k)) in rw rest (ground arith)

-- The tasks of two clients share a key only if they are of the same client on the same stream,
-- provided that no stream's name has a colon.
pub build_task_key-injective :
    (a b c d : String)
    → has_no_colon a ≡ true
    → has_no_colon b ≡ true
    → build_task_key a c ≡ build_task_key b d
    → (a ≡ b) × (c ≡ d)
build_task_key-injective a b c d h k e =
    let both : (a == b && c == d) ≡ true =
      sym (colon_free a b c d h k) ∙ (eq_iff (build_task_key a c) (build_task_key b d)).1 e in
    ((eq_iff a b).0 (ground (arith, both)), (eq_iff c d).0 (ground (arith, both)))

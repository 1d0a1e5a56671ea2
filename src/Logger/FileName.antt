-- ===== src/Logger/FileName.antt =====
-- src/util/Logger.cpp: the name of a source file without its directories.
use Prim.Native.String.{[] as nil, ◌∷◌ as ◌∷ₛ◌}
use stream_gate.Base.{String, ◌≡◌, refl, true, none, some, arith}
use stream_gate.Base.Text.{◌++◌}
use stream_gate.Hook.Params.{absent}
use stream_gate.Logger.{after_last, file_name}

after_last-absent : (s : String) → absent "/" s ≡ true → after_last s ≡ none
after_last-absent nil h = refl
after_last-absent (c ∷ₛ s) h = ground (arith, after_last-absent s (ground (arith, h)))

after_last-append :
    (directory name : String)
    → absent "/" name ≡ true
    → after_last (directory ++ "/" ++ name) ≡ some name
after_last-append nil name h = ground (arith, after_last-absent name h)
after_last-append (c ∷ₛ s) name h = ground (arith, after_last-append s name h)

-- Of a path that ends with a name, the name is printed.
pub file_name-append :
    (directory name : String) → absent "/" name ≡ true → file_name (directory ++ "/" ++ name) ≡ name
unfolding file_name
file_name-append directory name h = ground (arith, after_last-append directory name h)

-- ===== src/Json.antt =====
-- The JSON library that the repository calls (nlohmann::json). It is not part of the repository, so
-- it is a parameter; `none` says that a call throws.
use stream_gate.Base.{ℕ, String, Bool, Option, List}
use stream_gate.Base.Fields.{Fields}
use stream_gate.Base.Int.{ℤ}

pub record JsonLib : Type 1 where
  pub Json : Type 0
  pub parse : String → Option Json
  pub dump : Json → Option String
  pub object : List (String × Json) → Json
  pub of_string : String → Json
  pub of_bool : Bool → Json
  pub of_int : ℤ → Json
  pub of_map : Fields → Json
  -- `j.value(key, default)`, by the type of the default. The last one is for an unsigned default.
  pub value_string : String → String → Json → Option String
  pub value_bool : String → Bool → Json → Option Bool
  pub value_uint : String → ℕ → Json → Option ℕ
  -- `j.contains(key) && j[key].is_object()`, and then `j[key].get<std::map<...>>()`
  pub has_object : String → Json → Bool
  pub get_map : String → Json → Option Fields
  -- `j.find(key)`
  pub find : String → Json → Option Json
  -- `j.is_string()`, and then `j.get<std::string>()`
  pub as_string : Json → Option String
  -- `j.items()`
  pub items : Json → List (String × Json)

-- ===== src/Auth.antt =====
-- include/StreamAuthData.h, src/models/StreamAuthData.cpp and src/auth/AuthManager.cpp: who may
-- publish and play.
pub mod Json
pub mod Cached
pub mod Repository
pub mod Manager
pub mod Checked
pub mod Counted
use stream_gate.Base.{ℕ, String, Bool, true, false, ◌&&◌, not}
use stream_gate.Base.Fields.{Fields}
use stream_gate.Base.Int.{ℤ, pos}
use stream_gate.Base.Text.{is_empty}

pub record StreamAuthData : Type 0 where
  pub stream_key : String
  pub client_id : String
  pub auth_token : String
  pub is_authorized : Bool
  pub expire_time : ℤ
  pub metadata : Fields

-- `isValid`
abbrev pub is_valid : StreamAuthData → Bool
is_valid d = not (is_empty d.stream_key) && d.is_authorized

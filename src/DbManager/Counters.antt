-- ===== src/DbManager/Counters.antt =====
-- A std::atomic<int> that counts up and down, as how often it did each. It can fall below zero.
use stream_gate.Base.{ℕ, suc, ◌+◌, Bool, ltb}
use stream_gate.Base.Int.{ℤ, sub_ℕ}

pub record Counter : Type 0 where
  pub ups : ℕ
  pub downs : ℕ

abbrev pub start : Counter
start = record { ups = 0; downs = 0 }

-- `fetch_add(1)` and `fetch_sub(1)`
abbrev pub up : Counter → Counter
up c = record c { ups = suc c.ups }

abbrev pub down : Counter → Counter
down c = record c { downs = suc c.downs }

-- `load()`
abbrev pub read : Counter → ℤ
read c = sub_ℕ c.ups c.downs

abbrev pub below : Counter → ℕ → Bool
below c limit = ltb c.ups (limit + c.downs)

abbrev pub is_positive : Counter → Bool
is_positive c = ltb c.downs c.ups

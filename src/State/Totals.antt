-- ===== src/State/Totals.antt =====
-- The global player counter: a decimal integer in a field of a hash.
use stream_gate.Base.{
  ℕ, suc, ◌<◌, ◌+◌, ◌^◌, ◌≤◌, String, ◌≡◌, ap, true, Option, none, some, arith, ◌⊎◌, inl, inr,
}
use stream_gate.Base.Decimal.{to_string_ℤ, stoll, stoll-to_string_ℤ}
use stream_gate.Base.Int.{ℤ, pos, negsuc, pos_part, neg_part, ◌+ℤ◌}
use stream_gate.Redis.{hincrby}
use stream_gate.Redis.Keyspace.{Keyspace, apply, counts, field_int}
use stream_gate.State.Keys.{build_global_player_count_key}

abbrev pub total_field : Keyspace → Option String
total_field v = v.hash build_global_player_count_key "total"

-- The counter stands at `z`, or is missing and `z` is 0; it can still move by `room` either way.
pub record HasTotal (room : ℕ) (z : ℤ) (v : Keyspace) : Type 0 where
  pub shown : (total_field v ≡ some (to_string_ℤ z)) ⊎ ((total_field v ≡ none) × (z ≡ pos 0))
  pub above : neg_part z + room < 2 ^ 63
  pub below : pos_part z + room < 2 ^ 63

stoll_lem : (z : ℤ) → neg_part z < 2 ^ 63 → pos_part z < 2 ^ 63 → stoll (to_string_ℤ z) ≡ some z
stoll_lem z a b = stoll-to_string_ℤ z (ground arith) (ground arith)

module _ (room : ℕ) (z : ℤ) (v : Keyspace) (h : HasTotal room z v) where
  pub field_int_lem : field_int (total_field v) ≡ z
  field_int_lem = elim h.shown [
    | inl e ↦ rw (e, stoll_lem z (omega arith) (omega arith))
    | inr (e, zero_total) ↦ rw (e, zero_total)
  ]

  -- A step within the room keeps to 64 bits.
  pub counts_lem : (d : ℤ) → pos_part d ≤ room → neg_part d ≤ room → counts (total_field v) d ≡ true
  counts_lem d p n = elim h.shown [
    | inl e ↦ rw (e, stoll_lem z (omega arith) (omega arith)) (ground arith)
    | inr (e, zero_total) ↦ rw e (ground arith)
  ]

abbrev pub count_up : ℤ → ℤ
count_up z = z +ℤ pos 1

abbrev pub count_down : ℤ → ℤ
count_down z = z +ℤ negsuc 0

abbrev move : ℤ → Keyspace → Keyspace
move d v = apply (hincrby build_global_player_count_key "total" d) v

HasTotal-move :
    (room : ℕ) (z d : ℤ) (v : Keyspace)
    → pos_part d ≤ 1
    → neg_part d ≤ 1
    → HasTotal (suc room) z v
    → HasTotal room (z +ℤ d) (move d v)
HasTotal-move room z d v p n h = record {
  shown = inl (ap (λ t. some (to_string_ℤ (t +ℤ d))) (field_int_lem (suc room) z v h));
  above = ground (arith, h.above);
  below = ground (arith, h.below);
}

pub HasTotal-up :
    (room : ℕ) (z : ℤ) (v : Keyspace)
    → HasTotal (suc room) z v
    → HasTotal room (count_up z) (move (pos 1) v)
HasTotal-up room z v h = HasTotal-move room z (pos 1) v (omega arith) (omega arith) h

pub HasTotal-down :
    (room : ℕ) (z : ℤ) (v : Keyspace)
    → HasTotal (suc room) z v
    → HasTotal room (count_down z) (move (negsuc 0) v)
HasTotal-down room z v h = HasTotal-move room z (negsuc 0) v (omega arith) (omega arith) h

-- Only the counter's field matters.
pub HasTotal_same :
    (room : ℕ) (z : ℤ) (v w : Keyspace)
    → total_field w ≡ total_field v
    → HasTotal room z v
    → HasTotal room z w
HasTotal_same room z v w e h = record { shown = rw e h.shown; above = h.above; below = h.below }

pub HasTotal-weaken :
    (room : ℕ) (z : ℤ) (v : Keyspace) → HasTotal (suc room) z v → HasTotal room z v
HasTotal-weaken room z v h = record {
  shown = h.shown;
  above = omega (arith, h.above);
  below = omega (arith, h.below);
}

-- ===== src/State/Counting.antt =====
-- What `getActivePlayerCount` makes of the global player counter, on a server that is online.
use stream_gate.Base.{ℕ, ◌-◌, ◌^◌, ◌≡◌, refl, sym, ap, arith, inl, inr}
use stream_gate.Base.Decimal.{stoull-to_string_ℤ_neg, stoull-to_string_ℤ_pos}
use stream_gate.Base.Int.{ℤ, pos, negsuc}
use stream_gate.Redis.{Redis}
use stream_gate.Redis.Keyspace.{Keyspace}
use stream_gate.Redis.Lawful.{Lawful}
use stream_gate.Cache.{hash_get_all}
use stream_gate.State.Keys.{build_global_player_count_key}
use stream_gate.State.Query.{get_active_player_count, total_of}
use stream_gate.State.Totals.{HasTotal, total_field}

-- A number as 64 bits without a sign.
abbrev pub unsigned : ℤ → ℕ
unsigned (pos n) = n
unsigned (negsuc n) = 2 ^ 64 - 1 - n

shown_total :
    (room : ℕ) (z : ℤ) (v : Keyspace) → HasTotal room z v → total_of (total_field v) ≡ unsigned z
shown_total room (pos n) v h = elim h.shown [
  | inl e ↦ rw (e, stoull-to_string_ℤ_pos n (omega (arith, h.below))) refl
  | inr (e, zero_total) ↦ rw e (sym (ap unsigned zero_total))
]
shown_total room (negsuc n) v h = elim h.shown [
  | inl e ↦ rw (e, stoull-to_string_ℤ_neg n (omega (arith, h.above))) (omega arith)
  | inr (e, zero_total) ↦ rw e (sym (ap unsigned zero_total))
]

-- The number of active players that is reported is the counter taken without its sign: once the
-- counter is below zero, it is a number near 2 ^ 64.
pub get_active_player_count-HasTotal :
    (r : Redis) (l : Lawful r) (s : r.Server) (room : ℕ) (z : ℤ)
    → l.Online s
    → HasTotal room z (l.view s)
    → get_active_player_count r s ≡ unsigned z
unfolding get_active_player_count hash_get_all
get_active_player_count-HasTotal r l s room z o h =
    let (fs, replied, found) = l.hgetall_law build_global_player_count_key s o refl in
    rw (replied, found "total") (shown_total room z (l.view s) h)

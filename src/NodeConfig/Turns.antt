-- ===== src/NodeConfig/Turns.antt =====
-- The nodes of a category take turns.
use native.Mathlib.Nat.{mod-add-mod, add-mod_right, mod-eq_of_lt, mod-lt}
use stream_gate.Base.{
  ℕ, zero, suc, ◌+◌, ◌-◌, ◌%◌, ◌^◌, ◌≤◌, ◌<◌, ◌≡◌, refl, sym, ap, ◌∙◌, Bool, true, false, Option,
  none, some, List, [], ◌∷◌, length, leb, leb→le, arith, if◌then◌else◌,
}
use stream_gate.Scheduler.Nodes.{NodeEndpoint, NodeConfig, nth}
use stream_gate.NodeConfig.{
  Category, rtmp_srt, http_hls, webrtc, unknown, get_endpoints_by_cat, Turn, counter, round_robin,
  get_round_robin_endpoint,
}

-- The turn after some calls.
abbrev pub after : NodeConfig → Category → ℕ → Turn → Turn
after config cat zero t = t
after config cat (suc k) t = after config cat k (get_round_robin_endpoint config cat t).1

-- How many calls there are until the counter points at j.
abbrev pub calls_until : ℕ → ℕ → ℕ → ℕ
calls_until n c j = if leb (c % n) j then j - c % n else j + n - c % n

calls_until_lt : (n c j : ℕ) → j < n → calls_until n c j < n
calls_until_lt n c j h = ground (arith, h, mod-lt c {m = n} (omega (arith, h)))

hits_later : (n r j : ℕ) → j < n → r ≤ j → (r + (j - r)) % n ≡ j
hits_later n r j h low =
    let reached : r + (j - r) ≡ j = omega (arith, low) in rw reached (mod-eq_of_lt h)

hits_around : (n r j : ℕ) → j < n → r < n → (r + (j + n - r)) % n ≡ j
hits_around n r j h low =
    let reached : r + (j + n - r) ≡ j + n = omega (arith, low) in
    rw reached (add-mod_right j n ∙ mod-eq_of_lt h)

-- `r` is what the counter leaves.
hits :
    (n r j : ℕ) (b : Bool)
    → leb r j ≡ b
    → j < n
    → r < n
    → (r + (if b then j - r else j + n - r)) % n ≡ j
hits n r j true e h low = hits_later n r j h (leb→le r j e)
hits n r j false e h low = hits_around n r j h low

lands : (n c j : ℕ) → j < n → (c + calls_until n c j) % n ≡ j
lands n c j h =
    sym (mod-add-mod c n (calls_until n c j))
    ∙ hits n (c % n) j (leb (c % n) j) refl h (mod-lt c {m = n} (omega (arith, h)))

abbrev pub IsServed : Category → Type 0
IsServed cat = elim cat [ unknown ↦ 0 < 0 | _ ↦ Unit {0} ]

call_counter :
    (config : NodeConfig) (cat : Category) (t : Turn) (nodes : List NodeEndpoint)
    → IsServed cat
    → 0 < length nodes
    → counter cat t + 1 < 2 ^ 64
    → counter cat (round_robin cat nodes t).1 ≡ suc (counter cat t)
call_counter config cat t [] served some_node low = absurd (omega (arith, some_node))
call_counter config rtmp_srt t (node ∷ rest) served some_node low = omega (arith, low)
call_counter config http_hls t (node ∷ rest) served some_node low = omega (arith, low)
call_counter config webrtc t (node ∷ rest) served some_node low = omega (arith, low)
call_counter config unknown t (node ∷ rest) served some_node low = absurd (omega (arith, served))

-- The node at an index, when there is one.
abbrev pub node_at : List NodeEndpoint → ℕ → Option NodeEndpoint
node_at [] j = none
node_at (node ∷ rest) j = some (nth node rest j)

module _ (config : NodeConfig) (cat : Category) (served : IsServed cat)
    (some_node : 0 < length (get_endpoints_by_cat config cat)) where
  counter-after :
      (k : ℕ) (t : Turn)
      → counter cat t + k < 2 ^ 64
      → counter cat (after config cat k t) ≡ counter cat t + k
  unfolding get_round_robin_endpoint
  counter-after zero t low = omega arith
  counter-after (suc k) t low =
      let t' = (get_round_robin_endpoint config cat t).1 in
      let once =
        call_counter config cat t (get_endpoints_by_cat config cat) served some_node
          (omega (arith, low)) in
      omega (arith, once, counter-after k t' (omega (arith, low, once)))

  round_robin_node :
      (nodes : List NodeEndpoint) (t : Turn) (j : ℕ)
      → counter cat t % length nodes ≡ j
      → (round_robin cat nodes t).0 ≡ node_at nodes j
  round_robin_node [] t j e = refl
  round_robin_node (node ∷ rest) t j e = ap (λ i. some (nth node rest i)) e

  -- Each node of a category gets a turn among any as many calls in a row as the category has nodes,
  -- unless the 64-bit counter wraps within them.
  pub get_round_robin_endpoint_lem :
      (t : Turn) (j : ℕ)
      → j < length (get_endpoints_by_cat config cat)
      → counter cat t + length (get_endpoints_by_cat config cat) < 2 ^ 64
      → (k : ℕ) × (k < length (get_endpoints_by_cat config cat))
        × ((get_round_robin_endpoint config cat (after config cat k t)).0
            ≡ node_at (get_endpoints_by_cat config cat) j)
  unfolding get_round_robin_endpoint
  get_round_robin_endpoint_lem t j h low =
      let nodes = get_endpoints_by_cat config cat in
      let k = calls_until (length nodes) (counter cat t) j in
      let early = calls_until_lt (length nodes) (counter cat t) j h in
      let reached = counter-after k t (omega (arith, low, early)) in
      (
        k,
        early,
        round_robin_node nodes (after config cat k t) j
            (ap (λ c. c % length nodes) reached ∙ lands (length nodes) (counter cat t) j h),
      )

-- ===== src/HookServer/Answers.antt =====
-- Which hooks of a session are answered.
use stream_gate.Base.{ℕ, ◌+◌, ◌≤◌, ◌<◌, ◌≡◌, Bool, List, [], ◌∷◌, if◌then◌else◌}
use stream_gate.HookServer.Session.{
  Phase, pending, HookSession, Event, threw, Output, carried, failed, to_controller, nothing,
}

abbrev pub is_carried : Output → ℕ
is_carried o = elim o [ carried _ ↦ 1 | _ ↦ 0 ]

abbrev pub is_failed : Output → ℕ
is_failed o = elim o [ failed _ ↦ 1 | _ ↦ 0 ]

abbrev pub is_handed : Output → ℕ
is_handed o = elim o [ to_controller _ ↦ 1 | _ ↦ 0 ]

-- How many outputs are of a kind.
abbrev pub count : (Output → ℕ) → List Output → ℕ
count f [] = 0
count f (o ∷ os) = f o + count f os

abbrev pub is_pending : Phase → ℕ
is_pending phase = elim phase [ pending ↦ 1 | _ ↦ 0 ]

abbrev pub spent : Bool → ℕ
spent responded = if responded then 1 else 0

-- One event: the hooks that are with the controller, and whether the flag is set.
abbrev Balanced : HookSession → HookSession × Output → Type 0
Balanced s (s', o) =
    (is_handed o + is_pending s.phase ≡ is_carried o + is_failed o + is_pending s'.phase)
    × (is_carried o + spent s.responded ≤ spent s'.responded)

-- The controller does not throw.
abbrev pub IsCalm : Event → Type 0
IsCalm e = elim e [ threw ↦ 0 < 0 | _ ↦ Unit {0} ]

abbrev pub IsSilent : Output → Type 0
IsSilent o = o ≡ nothing

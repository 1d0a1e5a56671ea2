-- ===== src/Tests/Streams.antt =====
-- The theorems on the tasks of streams, at the servers of the parent.
use stream_gate.Base.{
  [], ◌∷◌, String, ◌≡◌, refl, true, false, none, some, arith, All, inl, length, if◌then◌else◌,
}
use stream_gate.Base.Decimal.{stoll, to_string_ℤ}
use stream_gate.Base.Fields.{lookup, or_else}
use stream_gate.Base.Int.{pos, negsuc}
use stream_gate.Base.Text.{◌==◌}
use stream_gate.Task.{StreamTask, publisher, player}
use stream_gate.Task.Fields.{serialize_task, deserialize_task}
use stream_gate.Task.Fields.RoundTrip.{IsStorable, stored, deserialize_task-serialize_task}
use stream_gate.Redis.Sample.{Memory, sample, sample_lawful, empty}
use stream_gate.State.Counting.{unsigned, get_active_player_count-HasTotal}
use stream_gate.State.Deregister.{deregister_task}
use stream_gate.State.Keys.{build_task_key, member_key, build_task_timestamp_zset_key}
use stream_gate.State.Playing.{register_task-player, has_player_hash, SamePlayers}
use stream_gate.State.Publishing.{register_task-publisher, IsClock, IsFree}
use stream_gate.Cache.{set_members}
use stream_gate.State.Query.{get_stream_client_ids, get_active_player_count}
use stream_gate.State.Register.{register_task}
use stream_gate.State.Removal.{CanDrop}
use stream_gate.State.Removed.{deregister_task_lem, NotMember}
use stream_gate.State.Scan.{scan_one, scan_timeout_tasks}
use stream_gate.State.Scanned.{IsExpired, scan_timeout_tasks-IsExpired, scan_one_lost}
use stream_gate.State.Stored.{IsRegistered, IsPublished}
use stream_gate.State.Totals.{HasTotal, count_up}
use stream_gate.State.View.{task_at, publisher_at}
use stream_gate.Tests.{noon, task_of, busy}

abbrev anna : StreamTask
anna = task_of publisher "anna"

abbrev carl : StreamTask
carl = task_of player "carl"

at_noon : IsClock noon
at_noon = (omega arith, omega arith)

anna-IsStorable : IsStorable anna
anna-IsStorable = record {
  start_low = omega arith;
  start_high = omega arith;
  last_low = omega arith;
  last_high = omega arith;
  port_low = refl;
  port_high = refl;
}

carl-IsStorable : IsStorable carl
carl-IsStorable = record {
  start_low = omega arith;
  start_high = omega arith;
  last_low = omega arith;
  last_high = omega arith;
  port_low = refl;
  port_high = refl;
}

one_player : HasTotal 9 (pos 1) (sample_lawful.view busy)
unfolding to_string_ℤ
one_player = record { shown = inl refl; above = omega arith; below = omega arith }

one_less : CanDrop (sample_lawful.view busy)
unfolding stoll
one_less = refl

two_less :
    HasTotal (length (get_stream_client_ids sample "live" busy)) (pos 1) (sample_lawful.view busy)
unfolding get_stream_client_ids set_members to_string_ℤ
two_less = record { shown = inl refl; above = omega arith; below = omega arith }

free : IsFree anna (sample_lawful.view empty)
unfolding deserialize_task
free = refl

publisher_example :
    (s' : Memory) × (register_task sample noon anna empty ≡ (true, s'))
    × sample_lawful.Online s'
    × IsRegistered noon anna (sample_lawful.view s')
    × IsPublished anna (sample_lawful.view s')
publisher_example =
    register_task-publisher sample sample_lawful anna empty tt noon refl at_noon anna-IsStorable
      refl free

player_example :
    (s' : Memory) × (register_task sample noon carl busy ≡ (true, s'))
    × sample_lawful.Online s'
    × IsRegistered noon carl (sample_lawful.view s')
    × HasTotal 7
        (if has_player_hash (sample_lawful.view busy) carl then pos 1 else count_up (pos 1))
        (sample_lawful.view s')
    × SamePlayers (sample_lawful.view busy) (sample_lawful.view s')
player_example =
    register_task-player sample sample_lawful carl busy tt 7 (pos 1) one_player noon refl at_noon
      carl-IsStorable

removal_example :
    (s' : Memory) × (deregister_task sample "live" "anna" busy ≡ (true, s'))
    × sample_lawful.Online s'
    × ((b d : String)
        → task_at (sample_lawful.view s') b d ≡ (
            if build_task_key "live" "anna" == build_task_key b d
            then none
            else task_at (sample_lawful.view busy) b d))
    × NotMember
        (task_at (sample_lawful.view busy) "live" "anna")
        "live"
        "anna"
        (sample_lawful.view s')
removal_example = deregister_task_lem sample sample_lawful busy tt "live" "anna" one_less

scan_example :
    All (IsExpired 1700000060000 60000) (scan_timeout_tasks sample 1700000060000 60000 busy).0
scan_example = scan_timeout_tasks-IsExpired 1700000060000 60000 sample busy

round_trip_example :
    deserialize_task (λ f. or_else (lookup f (serialize_task anna)) none) ≡ some (stored anna)
round_trip_example = deserialize_task-serialize_task anna (λ f. none) anna-IsStorable

-- The publisher's hash has expired.
abbrev faded : Memory
faded = record busy {
  hashes = λ k. if k == "task:live:anna" then [] else busy.hashes k;
  live = λ k. if k == "task:live:anna" then false else busy.live k;
}

faded_lost : task_at (sample_lawful.view faded) "live" "anna" ≡ none
unfolding deserialize_task
faded_lost = refl

lost_example :
    (s' : Memory) × (scan_one sample 1700000060000 60000 (build_task_key "live" "anna") faded
      ≡ (none, s'))
    × sample_lawful.Online s'
    × ((sample_lawful.view s').score build_task_timestamp_zset_key (build_task_key "live" "anna")
        ≡ none)
    × ((b : String)
        → publisher_at (sample_lawful.view s') b ≡ publisher_at (sample_lawful.view faded) b)
    × ((b d : String)
        → (sample_lawful.view s').set (member_key b) d
          ≡ (sample_lawful.view faded).set (member_key b) d)
lost_example =
    scan_one_lost 1700000060000 60000 sample sample_lawful faded "live" "anna" tt faded_lost refl

abbrev miscounted : Memory
miscounted = record empty {
  hashes = λ k. if k == "global_players" then ("total", "-1") ∷ [] else [];
}

below_zero : HasTotal 9 (negsuc 0) (sample_lawful.view miscounted)
unfolding to_string_ℤ
below_zero = record { shown = inl refl; above = omega arith; below = omega arith }

-- 2 ^ 64 - 1 players.
counting_example : get_active_player_count sample miscounted ≡ unsigned (negsuc 0)
counting_example =
    get_active_player_count-HasTotal sample sample_lawful miscounted 9 (negsuc 0) tt below_zero

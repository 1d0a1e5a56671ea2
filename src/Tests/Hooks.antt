-- ===== src/Tests/Hooks.antt =====
-- The theorems on the scheduler, the hooks and the authentication, at the servers of the parent.
use stream_gate.Base.{
  List, String, ◌≡◌, refl, ap, true, false, none, some, [], ◌∷◌, arith, inl, length,
}
use stream_gate.Base.Decimal.{to_string_ℤ}
use stream_gate.Base.Fields.{Fields}
use stream_gate.Base.Int.{pos}
use stream_gate.Cache.{set_members}
use stream_gate.Task.{publisher}
use stream_gate.Task.Fields.{deserialize_task}
use stream_gate.Task.Fields.RoundTrip.{IsStorable}
use stream_gate.Redis.Sample.{Memory, sample, sample_lawful, empty}
use stream_gate.State.Keys.{member_key}
use stream_gate.State.Query.{get_stream_client_ids}
use stream_gate.State.Publishing.{IsFree}
use stream_gate.State.Stored.{IsRegistered, IsPublished}
use stream_gate.State.Totals.{HasTotal}
use stream_gate.State.View.{task_at}
use stream_gate.Scheduler.{
  publish_authorized, play_authorized, fresh_counters, already_publishing, failed, succeeded,
  on_publish, on_play, on_publish_done,
}
use stream_gate.Scheduler.Ending.{publishes, on_publish_done_lem}
use stream_gate.Scheduler.Granted.{task_to_publish}
use stream_gate.Scheduler.Metrics.{
  Asked, to_publish, to_play, IsReported, ask_all, no_tally, get_metrics, failed_pub, failed_play,
}
use stream_gate.Scheduler.Metrics.Counted.{get_metrics-ask_all}
use stream_gate.Scheduler.Nodes.{select_best_node}
use stream_gate.Scheduler.Publishing.{granted_counters, on_publish_first, on_publish_second}
use stream_gate.Hook.Query.{encode, insert_all, parse_url_params-encode}
use stream_gate.Hook.Params.{parse_url_params}
use stream_gate.Tests.{
  noon, clock, no_nodes, request, task_of, busy, anna_found, anna_holds, anna_not_carl,
}

to_publish-IsStorable :
    IsStorable (task_to_publish sample no_nodes clock (request "anna") fresh_counters empty)
unfolding select_best_node
to_publish-IsStorable = record {
  start_low = omega arith;
  start_high = omega arith;
  last_low = omega arith;
  last_high = omega arith;
  port_low = refl;
  port_high = refl;
}

free :
    IsFree
      (task_to_publish sample no_nodes clock (request "anna") fresh_counters empty)
      (sample_lawful.view empty)
unfolding deserialize_task
free = refl

first_example :
    (s' : Memory) × (on_publish sample no_nodes clock
        (request "anna")
        (some (pos 0))
        fresh_counters
        empty
      ≡ (
        some (
            succeeded
              (task_to_publish sample no_nodes clock (request "anna") fresh_counters empty)
              "推流授权成功"),
        granted_counters sample sample_lawful no_nodes clock
            (request "anna")
            fresh_counters
            empty
            tt
            refl,
        s',
      ))
    × sample_lawful.Online s'
    × IsRegistered noon
        (task_to_publish sample no_nodes clock (request "anna") fresh_counters empty)
        (sample_lawful.view s')
    × IsPublished
        (task_to_publish sample no_nodes clock (request "anna") fresh_counters empty)
        (sample_lawful.view s')
first_example =
    on_publish_first sample sample_lawful no_nodes clock (request "anna") fresh_counters empty tt
      refl (omega arith, omega arith) to_publish-IsStorable refl free

second_example :
    ((on_publish sample no_nodes clock (request "carl") (some (pos 0)) fresh_counters busy).0
      ≡ some (failed already_publishing "该流已在推送中"))
    × ((on_publish sample no_nodes clock (request "carl") (some (pos 0)) fresh_counters busy).2
        ≡ busy)
second_example =
    on_publish_second sample sample_lawful no_nodes clock (request "carl") fresh_counters busy tt
      refl (task_of publisher "anna") anna_holds anna_not_carl

-- Two publishers, one denied and one never answered, and a player that is denied.
abbrev hooks : List Asked
hooks =
    to_publish clock (request "anna") (some (pos 1))
    ∷ to_publish clock (request "bert") none
    ∷ to_play clock (request "bert") (some (pos 1))
    ∷ []

metrics_example :
    IsReported
      (ask_all sample no_nodes hooks no_tally fresh_counters empty).0
      (get_metrics (ask_all sample no_nodes hooks no_tally fresh_counters empty).1)
    × (failed_pub (get_metrics (ask_all sample no_nodes hooks no_tally fresh_counters empty).1) ≡ 2)
    × (failed_play (get_metrics (ask_all sample no_nodes hooks no_tally fresh_counters empty).1)
        ≡ 1)
unfolding ask_all on_publish on_play publish_authorized play_authorized
metrics_example = get_metrics-ask_all sample no_nodes hooks empty (omega arith) (omega arith)

two_less :
    HasTotal (length (get_stream_client_ids sample "live" busy)) (pos 1) (sample_lawful.view busy)
unfolding get_stream_client_ids set_members to_string_ℤ
two_less = record { shown = inl refl; above = omega arith; below = omega arith }

done_example :
    sample_lawful.Online (on_publish_done sample no_nodes "live" "anna" busy)
    × ((d : String)
        → (sample_lawful.view busy).set (member_key "live") d ≡ true
        → task_at (sample_lawful.view (on_publish_done sample no_nodes "live" "anna" busy)) "live" d
          ≡ none)
    × ((d : String)
        → (sample_lawful.view (on_publish_done sample no_nodes "live" "anna" busy)).set
            (member_key "live")
            d
          ≡ false)
done_example =
    on_publish_done_lem sample sample_lawful no_nodes busy tt "live" "anna" (pos 1) two_less
      (ap publishes anna_found)

abbrev params : Fields
params = ("token", "t=1") ∷ ("room", "7") ∷ []

query_example : parse_url_params (encode params) [] ≡ insert_all params []
query_example = parse_url_params-encode params [] ((refl, refl), ((refl, refl), tt))

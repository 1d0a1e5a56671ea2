-- ===== src/Metrics/Report.antt =====
-- src/metrics/ServerMetricsProvider.cpp, ServerMetricsProvider: the text of the three totals in a
-- buffer of 1024 bytes. The texts are ASCII, so that a character is a byte.
pub mod Room
use stream_gate.Base.{ℕ, ◌+◌, ◌-◌, String, Bool, ltb, leb, if◌then◌else◌}
use stream_gate.Base.Decimal.{to_string}
use stream_gate.Base.Text.{◌++◌, size}
use stream_gate.Metrics.Slot.{Counts}
use stream_gate.Metrics.Registry.{ThreadLocalRegistry, aggregate}

abbrev pub buffer_size : ℕ
buffer_size = 1024

-- `to_chars` into what is left before the last byte, and the end of the line if that was enough.
unfoldable pub put_number : String → String → String
put_number text digits =
    if ltb (buffer_size - 1 - size text) (size digits) then text else text ++ digits ++ "\n"

-- The text is what stands before `ptr`.
unfoldable pub append_metric : String → ℕ → String → String
unfolding put_number
append_metric name value text =
    if leb buffer_size (size text + size name + 22)
    then text
    else put_number (text ++ name ++ " ") (to_string value)

-- The text that `refresh` publishes.
unfoldable pub report_of : Counts → String
unfolding append_metric
report_of c = append_metric "streamgate_requests_failed" c.failed (
    append_metric "streamgate_requests_success" c.success
      (append_metric "streamgate_requests_total" c.total ""))

unfoldable pub server_refresh : ThreadLocalRegistry → String
unfolding report_of aggregate
server_refresh r = report_of (aggregate r)

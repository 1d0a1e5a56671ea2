-- ===== src/Metrics/Report/Room.antt =====
-- src/metrics/ServerMetricsProvider.cpp, ServerMetricsProvider: the buffer is large enough.
use stream_gate.Base.{ℕ, ◌+◌, ◌-◌, ◌^◌, ◌≤◌, ◌<◌, ◌≡◌, ap, ◌∙◌, String, false, arith, ltb, leb}
use stream_gate.Base.Decimal.{to_string, size-to_string}
use stream_gate.Base.Text.{◌++◌, size, size-append, append_assoc}
use stream_gate.Metrics.Slot.{Counts, counts_of}
use stream_gate.Metrics.Registry.{ThreadLocalRegistry, aggregate}
use stream_gate.Metrics.Registry.Conserved.{IsWide, aggregate-IsWide}
use stream_gate.Metrics.Report.{buffer_size, put_number, append_metric, report_of, server_refresh}

-- A line of the report.
unfoldable pub line : String → ℕ → String
line name value = name ++ " " ++ to_string value ++ "\n"

-- A number of 64 bits has at most 20 digits.
size-wide : (n : ℕ) → n < 2 ^ 64 → size (to_string n) ≤ 20
size-wide n small = size-to_string 19 n (omega arith)

size-line : (name : String) (n : ℕ) → n < 2 ^ 64 → size (line name n) ≤ size name + 22
unfolding line
size-line name n small = omega (
  arith,
  size-wide n small,
  size-append name (" " ++ to_string n ++ "\n"),
  size-append (to_string n) "\n",
)

-- Where there is room, the whole line is written.
append_metric-room :
    (name : String) (n : ℕ) (text : String)
    → n < 2 ^ 64
    → size text + size name + 22 < buffer_size
    → append_metric name n text ≡ text ++ line name n
unfolding append_metric put_number line
append_metric-room name n text small room =
    let begun = text ++ name ++ " " in
    let fits : ltb (buffer_size - 1 - size begun) (size (to_string n)) ≡ false =
      ground (arith, size-wide n small, size-append text (name ++ " "), size-append name " ") in
    let room : leb buffer_size (size text + size name + 22) ≡ false = ground arith in
    let rest = to_string n ++ "\n" in
    rw (room, fits)
      (append_assoc text (name ++ " ") rest ∙ ap (λ t. text ++ t) (append_assoc name " " rest))

module _ (a b d : String) (x y z : ℕ)
    (small : IsWide (record { total = x; success = y; failed = z }))
    (room : size a + size b + size d + 66 < buffer_size) where
  two_lines : append_metric b y (append_metric a x "") ≡ line a x ++ line b y
  two_lines =
      ap (append_metric b y) (append_metric-room a x "" small.0 (omega arith))
      ∙ append_metric-room b y (line a x) small.1 (omega (arith, size-line a x small.0))

  three_lines :
      append_metric d z (append_metric b y (append_metric a x ""))
      ≡ line a x ++ line b y ++ line d z
  three_lines =
      ap (append_metric d z) two_lines
      ∙ append_metric-room d z (line a x ++ line b y) small.2 (
          omega (
            arith,
            size-append (line a x) (line b y),
            size-line a x small.0,
            size-line b y small.1,
          ))
      ∙ append_assoc (line a x) (line b y) (line d z)

  three_lines_room : size (line a x ++ line b y ++ line d z) < buffer_size
  three_lines_room = omega (
    arith,
    size-append (line a x) (line b y ++ line d z),
    size-append (line b y) (line d z),
    size-line a x small.0,
    size-line b y small.1,
    size-line d z small.2,
  )

-- The three totals, one to a line.
abbrev pub report_lines : Counts → String
report_lines c =
    line "streamgate_requests_total" c.total
    ++ line "streamgate_requests_success" c.success
    ++ line "streamgate_requests_failed" c.failed

-- On numbers of 64 bits the report has all three totals, each on its line, and ends before the end
-- of the buffer: no line is left out and none is cut.
pub server_refresh-line :
    (r : ThreadLocalRegistry)
    → IsWide (counts_of r.historical_stats)
    → (server_refresh r ≡ report_lines (aggregate r)) × (size (server_refresh r) < buffer_size)
unfolding server_refresh report_of
server_refresh-line r wide =
    let c = aggregate r in
    let small : IsWide c = aggregate-IsWide r wide in
    let lines : report_of c ≡ report_lines c =
      three_lines "streamgate_requests_total" "streamgate_requests_success"
        "streamgate_requests_failed" c.total c.success c.failed small (omega arith) in
    (
      lines,
      rw lines (
          three_lines_room "streamgate_requests_total" "streamgate_requests_success"
            "streamgate_requests_failed" c.total c.success c.failed small (omega arith)),
    )

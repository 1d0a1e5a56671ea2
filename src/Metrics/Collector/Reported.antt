-- ===== src/Metrics/Collector/Reported.antt =====
-- src/metrics/MetricsCollector.cpp: what the report shows after the providers were refreshed.
use stream_gate.Base.{String, Option, none, some, [], ◌∷◌, if◌then◌else◌}
use stream_gate.Base.Fields.{or_else}
use stream_gate.Base.Text.{◌==◌}
use stream_gate.Json.{JsonLib}
use stream_gate.Metrics.Provider.{Parts, export_metrics, snapshot}
use stream_gate.Metrics.Collector.{Provider, Providers, name_of}

module _ (lib : JsonLib) where
  open lib use {Json}

  -- What the last provider of a name has to show of the parts.
  abbrev pub shown : Parts → String → Providers lib → Option Json
  shown w k [] = none
  shown w k (p ∷ ps) =
      or_else (shown w k ps) (if name_of lib p == k then snapshot lib p.source w else none)

  -- What the last provider of a name keeps.
  abbrev kept : String → Providers lib → Option Json
  kept k [] = none
  kept k (p ∷ ps) =
      or_else (kept k ps) (if name_of lib p == k then some (export_metrics lib p) else none)

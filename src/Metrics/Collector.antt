-- ===== src/Metrics/Collector.antt =====
-- src/metrics/MetricsCollector.cpp and include/MetricsRegistry.h: the providers in the order of their
-- names, and the report of all of them. Each operation takes the lock, so that they follow each other.
pub mod Sorted
pub mod Reported
pub mod Worker
use stream_gate.Base.{
  ℕ, String, Bool, true, false, Option, none, some, List, [], ◌∷◌, if◌then◌else◌,
}
use stream_gate.Base.Fields.{insert}
use stream_gate.Base.Maybe.{◌>>=◌}
use stream_gate.Base.Slots.{snoc}
use stream_gate.Base.Text.{text_lt}
use stream_gate.Json.{JsonLib}
use stream_gate.Metrics.Provider.{
  Source, of_server, of_scheduler, of_database, of_cache, metrics_name, Parts, IMetricsProvider,
  new_provider, export_metrics, refresh,
}

module _ (lib : JsonLib) where
  open lib use {Json}

  abbrev pub Provider : Type 0
  Provider = IMetricsProvider lib

  abbrev pub name_of : Provider → String
  name_of p = metrics_name p.source

  abbrev pub Providers : Type 0
  Providers = List Provider

  -- std::ranges::sort by the names: a provider goes in front of those with a greater name.
  unfoldable pub place : Provider → Providers → Providers
  place p [] = p ∷ []
  place p (q ∷ qs) =
      let rest = place p qs in if text_lt (name_of p) (name_of q) then p ∷ q ∷ qs else q ∷ rest

  unfoldable pub sort : Providers → Providers
  unfolding place
  sort [] = []
  sort (p ∷ ps) = place p (sort ps)

  -- `none`: a null pointer.
  unfoldable pub register_provider : Option Provider → Providers → Providers
  unfolding sort
  register_provider none ps = ps
  register_provider (some p) ps = sort (snoc ps p)

  unfoldable pub collect : Providers → List (String × Json) → List (String × Json)
  collect [] components = components
  collect (p ∷ ps) components = collect ps (insert (name_of p) (export_metrics lib p) components)

  -- `timestamp`: the text of the time. How long a provider takes is only logged.
  unfoldable pub collect_all : String → Providers → Json
  unfolding collect
  collect_all timestamp ps =
      lib.object
        (("timestamp", lib.of_string timestamp) ∷ ("components", lib.object (collect ps [])) ∷ [])

  -- The first loop of the worker; `none`: the program ends.
  unfoldable pub refresh_all : Parts → Providers → Option Providers
  refresh_all w [] = some []
  refresh_all w (p ∷ ps) = do q ← refresh lib w p; qs ← refresh_all w ps; some (q ∷ qs)

  -- A turn of the worker: the providers after it, and the report for the exporter.
  unfoldable pub turn : Parts → String → Providers → Option (Providers × Json)
  unfolding refresh_all collect_all
  turn w timestamp ps = do qs ← refresh_all w ps; some (qs, collect_all timestamp qs)

  -- The section of the factories, each of which may be null or give a null pointer; `none`: there is
  -- no section.
  abbrev pub keep : Option (Option Provider) → Providers → Providers
  keep (some (some p)) ps = p ∷ ps
  keep _ ps = ps

  abbrev pub entries : List (Option (Option Provider)) → Providers
  entries [] = []
  entries (e ∷ es) = keep e (entries es)

  unfoldable pub create_all : Option (List (Option (Option Provider))) → Providers
  create_all none = []
  create_all (some es) = entries es

  -- src/main/main.cpp: the parts are injected, and then the providers are registered.
  abbrev pub injected : Source → Source
  injected of_server = of_server
  injected (of_scheduler b) = of_scheduler true
  injected (of_database b) = of_database true
  injected (of_cache b) = of_cache true

  abbrev pub inject : Provider → Provider
  inject p = record p { source = injected p.source }

  unfoldable pub register_all : Providers → Providers → Providers
  unfolding register_provider
  register_all [] ps = ps
  register_all (q ∷ qs) ps = register_all qs (register_provider (some (inject q)) ps)

-- ===== src/Auth/Counted.antt =====
-- What src/repository/HybridAuthRepository.cpp reports of itself, and what its counters count.
use stream_gate.Base.{
  ℕ, ◌+◌, ◌%◌, ◌^◌, ◌≡◌, refl, ◌∙◌, Bool, ◌&&◌, Option, none, some, List, [], ◌∷◌, length, String,
  ltb, arith, if◌then◌else◌,
}
use stream_gate.Json.{JsonLib}
use stream_gate.Redis.{Redis}
use stream_gate.Cache.{ready}
use stream_gate.DbManager.{Manager, is_connected}
use stream_gate.Auth.{StreamAuthData}
use stream_gate.Auth.Cached.{get_auth_data_by_key}
use stream_gate.Auth.Repository.{
  AuthRequest, Answer, Stats, bump, build_cache_key, query_database, from_database, from_cache,
  get_auth_data, get_auth_data_batch,
}

-- The rate of hits as the two numbers that are divided; `none`: it is 0.
abbrev pub hit_rate : Stats → Option (ℕ × ℕ)
hit_rate s =
    if ltb 0 ((s.cache_hits + s.cache_misses) % 2 ^ 64)
    then some (s.cache_hits, (s.cache_hits + s.cache_misses) % 2 ^ 64)
    else none

unfoldable pub get_stats : Stats → Stats × Option (ℕ × ℕ)
get_stats s = (s, hit_rate s)

-- What `ping` answers, and then the database, at its two loads; `none`: `ping` throws.
unfoldable pub is_healthy : Option Bool → Manager → Manager → Option Bool
is_healthy none m m' = none
is_healthy (some pinged) m m' = some (pinged && is_connected m m')

abbrev asked : Stats → ℕ
asked s = (s.cache_hits + s.cache_misses) % 2 ^ 64

module _ (r : Redis) (lib : JsonLib) (database : AuthRequest → Answer) where
  open r use {Server}

  query_database-asked :
      (q : AuthRequest) (key : String) (st : Stats) (s : Server)
      → asked (query_database r lib database q key st s).1 ≡ asked st
  unfolding query_database
  query_database-asked q key st s = ground arith

  from_database-asked :
      (q : AuthRequest) (key : String) (o : Option StreamAuthData) (st : Stats) (s : Server)
      → asked (from_database r lib database q key (o, st, s)).1 ≡ asked st
  from_database-asked q key none st s = refl
  from_database-asked q key (some d) st s = ground arith

  from_cache-asked :
      (q : AuthRequest) (key : String) (o : Option StreamAuthData) (st : Stats) (s : Server)
      → asked (from_cache r lib database q key o st s).1 ≡ (asked st + 1) % 2 ^ 64
  from_cache-asked q key none st s =
      let missed = record st { cache_misses = bump st.cache_misses } in
      let got = query_database r lib database q key missed s in
      from_database-asked q key got.0 got.1 got.2
      ∙ query_database-asked q key missed s
      ∙ omega arith
  from_cache-asked q key (some d) st s = ground arith

  -- Over any requests, the hits and the misses of the cache together grow by one for each request,
  -- in 64 bits, whatever the cache holds and the database answers.
  pub get_auth_data_batch-asked :
      (qs : List AuthRequest) (st : Stats) (s : Server)
      → asked (get_auth_data_batch r lib database qs st s).1 ≡ (asked st + length qs) % 2 ^ 64
  unfolding get_auth_data_batch get_auth_data
  get_auth_data_batch-asked [] st s = omega arith
  get_auth_data_batch-asked (q ∷ qs) st s =
      let key = build_cache_key q.stream_key q.client_id in
      let got = get_auth_data r lib database q st s in
      let first : asked got.1 ≡ (asked st + 1) % 2 ^ 64 =
        from_cache-asked q key (get_auth_data_by_key r ready lib key s) st s in
      get_auth_data_batch-asked qs got.1 got.2 ∙ omega (arith, first)

-- ===== src/Auth/Repository.antt =====
-- src/repository/HybridAuthRepository.cpp: the data of an authentication, from the cache or the
-- database.
use stream_gate.Base.{
  ℕ, ◌+◌, ◌%◌, ◌^◌, String, Bool, false, not, ◌&&◌, Option, none, some, List, [], ◌∷◌,
  if◌then◌else◌,
}
use stream_gate.Base.Int.{ℤ, pos}
use stream_gate.Base.Text.{◌==◌, ◌++◌, is_empty}
use stream_gate.Redis.{Redis}
use stream_gate.Cache.{ready, cache_ttl, key_del}
use stream_gate.Auth.{StreamAuthData}
use stream_gate.Auth.Cached.{get_auth_data_by_key, set_auth_data_by_key, set_empty_auth_data}
use stream_gate.Json.{JsonLib}

-- What the database gives for a query: taking a connection throws or gives none, the statement
-- throws sql::SQLException, or there is no row or one.
pub data Answer : Type 0 where
  guard_throws no_connection sql_error no_row : Answer
  row : String → Bool → Answer

-- include/IAuthRepository.h
pub record AuthRequest : Type 0 where
  pub stream_key : String
  pub client_id : String
  pub auth_token : String

pub record Stats : Type 0 where
  pub cache_hits : ℕ
  pub cache_misses : ℕ
  pub db_hits : ℕ
  pub db_misses : ℕ
  pub db_errors : ℕ
  pub validation_failures : ℕ

abbrev pub reset_stats : Stats
reset_stats = record {
  cache_hits = 0;
  cache_misses = 0;
  db_hits = 0;
  db_misses = 0;
  db_errors = 0;
  validation_failures = 0;
}

abbrev pub bump : ℕ → ℕ
bump n = (n + 1) % 2 ^ 64

abbrev pub negative_cache_ttl : ℤ
negative_cache_ttl = pos 30

abbrev pub transient_db_error_ttl : ℤ
transient_db_error_ttl = pos 5

abbrev pub build_cache_key : String → String → String
build_cache_key stream_key client_id = "auth_data:" ++ stream_key ++ ":" ++ client_id

-- `none`: an exception.
abbrev pub get_auth_data_from_db : AuthRequest → Answer → Option (Option StreamAuthData)
get_auth_data_from_db q guard_throws = none
get_auth_data_from_db q no_connection = some none
get_auth_data_from_db q sql_error = some none
get_auth_data_from_db q no_row = some none
get_auth_data_from_db q (row client_id is_active) = some (
    some (record {
      stream_key = q.stream_key;
      client_id = client_id;
      auth_token = q.auth_token;
      is_authorized = is_active;
      expire_time = pos 0;
      metadata = [];
    }))

abbrev pub validate_auth_data : StreamAuthData → AuthRequest → Bool
validate_auth_data d q =
    if not
      (d.stream_key == q.stream_key && d.client_id == q.client_id && d.auth_token == q.auth_token)
    then false
    else not (is_empty d.stream_key) && not (is_empty d.client_id) && not (is_empty d.auth_token)

module _ (r : Redis) (lib : JsonLib) (database : AuthRequest → Answer) where
  open r use {Server}

  abbrev pub queried :
      String
      → Option (Option StreamAuthData)
      → Stats
      → Server
      → Option StreamAuthData × Stats × Server
  queried key none st s = (
    none,
    record st { db_errors = bump st.db_errors },
    set_empty_auth_data r ready key transient_db_error_ttl s,
  )
  queried key (some none) st s = (
    none,
    record st { db_misses = bump st.db_misses },
    set_empty_auth_data r ready key negative_cache_ttl s,
  )
  queried key (some (some d)) st s = (some d, record st { db_hits = bump st.db_hits }, s)

  unfoldable pub query_database :
      AuthRequest → String → Stats → Server → Option StreamAuthData × Stats × Server
  query_database q key st s = queried key (get_auth_data_from_db q (database q)) st s

  abbrev pub from_database :
      AuthRequest
      → String
      → Option StreamAuthData × Stats × Server
      → Option StreamAuthData × Stats × Server
  from_database q key (none, st, s) = (none, st, s)
  from_database q key (some d, st, s) =
      if validate_auth_data d q
      then (some d, st, set_auth_data_by_key r ready lib key d (pos cache_ttl) s)
      else (none, record st { validation_failures = bump st.validation_failures }, s)

  abbrev pub from_cache :
      AuthRequest
      → String
      → Option StreamAuthData
      → Stats
      → Server
      → Option StreamAuthData × Stats × Server
  from_cache q key none st s =
      from_database q key
        (query_database q key (record st { cache_misses = bump st.cache_misses }) s)
  from_cache q key (some d) st s =
      let st' = record st { cache_hits = bump st.cache_hits } in
      if d.auth_token == q.auth_token && d.client_id == q.client_id then (some d, st', s) else (
        none,
        record st' { validation_failures = bump st.validation_failures },
        (key_del r ready key s).1,
      )

  unfoldable pub get_auth_data :
      AuthRequest → Stats → Server → Option StreamAuthData × Stats × Server
  get_auth_data q st s =
      let key = build_cache_key q.stream_key q.client_id in
      from_cache q key (get_auth_data_by_key r ready lib key s) st s

  -- One request after another.
  unfoldable pub get_auth_data_batch :
      List AuthRequest → Stats → Server → List (Option StreamAuthData) × Stats × Server
  get_auth_data_batch [] st s = ([], st, s)
  get_auth_data_batch (q ∷ qs) st s =
      let (d, st', s') = get_auth_data q st s in
      let (ds, st'', s'') = get_auth_data_batch qs st' s' in (d ∷ ds, st'', s'')

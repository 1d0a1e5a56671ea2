-- ===== src/Auth/Checked.antt =====
-- What an authentication rests on.
use stream_gate.Base.{
  String, ◌≡◌, refl, Bool, true, false, ◌&&◌, Option, none, some, [], arith, if◌then◌else◌,
}
use stream_gate.Base.Int.{pos}
use stream_gate.Base.Text.{◌==◌, eq_iff}
use stream_gate.Redis.{Redis}
use stream_gate.Redis.Lawful.{Lawful}
use stream_gate.Cache.{ready}
use stream_gate.Auth.{StreamAuthData}
use stream_gate.Auth.Cached.{get_string, get_auth_data_by_key}
use stream_gate.Json.{JsonLib}
use stream_gate.Auth.Manager.{verdict, perform_auth_logic}
use stream_gate.Auth.Repository.{
  Answer, guard_throws, no_connection, sql_error, no_row, row, AuthRequest, Stats, build_cache_key,
  get_auth_data_from_db, validate_auth_data, query_database, from_database, from_cache,
  get_auth_data, queried,
}

-- The data is of the client and the token that were asked for.
abbrev pub IsOf : AuthRequest → StreamAuthData → Type 0
IsOf q d = (d.auth_token ≡ q.auth_token) × (d.client_id ≡ q.client_id)

if_some :
    {S : Type 0} (b : Bool) (e d : StreamAuthData) (st st' : Stats) (x y : S)
    → (if◌then◌else◌ {A = Option StreamAuthData × Stats × S} b (some e, st, x) (none, st', y)).0
      ≡ some d
    → (b ≡ true) × (e ≡ d)
if_some true e d st st' x y h = (refl, cc)
if_some false e d st st' x y h = cc

valid-IsOf : (q : AuthRequest) (d : StreamAuthData) → validate_auth_data d q ≡ true → IsOf q d
valid-IsOf q d h = (
  (eq_iff d.auth_token q.auth_token).0 (ground (arith, h)),
  (eq_iff d.client_id q.client_id).0 (ground (arith, h)),
)

hit-IsOf :
    (q : AuthRequest) (d : StreamAuthData)
    → (d.auth_token == q.auth_token && d.client_id == q.client_id) ≡ true
    → IsOf q d
hit-IsOf q d h = (
  (eq_iff d.auth_token q.auth_token).0 (ground (arith, h)),
  (eq_iff d.client_id q.client_id).0 (ground (arith, h)),
)

verdict_yes :
    (found : Option StreamAuthData)
    → verdict found ≡ pos 0
    → (d : StreamAuthData) × (found ≡ some d) × (d.is_authorized ≡ true)
verdict_yes none h = ground (arith, h)
verdict_yes (some d) h = (d, refl, ground (arith, h))

module _ (r : Redis) (lib : JsonLib) (database : AuthRequest → Answer) (q : AuthRequest) where
  database-IsOf :
      (key : String) (x : Option StreamAuthData × Stats × r.Server) (d : StreamAuthData)
      → (from_database r lib database q key x).0 ≡ some d
      → IsOf q d
  database-IsOf key (none, st, s) d h = cc
  database-IsOf key (some e, st, s) d h =
      let (valid, same) = if_some (validate_auth_data e q) e d _ _ _ _ h in
      rw (← same) (valid-IsOf q e valid)

  cache-IsOf :
      (key : String) (cached : Option StreamAuthData) (st : Stats) (s : r.Server)
      (d : StreamAuthData)
      → (from_cache r lib database q key cached st s).0 ≡ some d
      → IsOf q d
  cache-IsOf key none st s d h = database-IsOf key _ d h
  cache-IsOf key (some e) st s d h =
      let (hit, same) =
        if_some (e.auth_token == q.auth_token && e.client_id == q.client_id) e d _ _ _ _ h in
      rw (← same) (hit-IsOf q e hit)

  -- Whatever the cache and the database do, the authentication says yes only on data that is marked
  -- authorized and is of the very client and token that were asked for.
  pub perform_auth_logic-IsOf :
      (st : Stats) (s : r.Server)
      → (perform_auth_logic r lib database q st s).0 ≡ pos 0
      → (d : StreamAuthData) × ((get_auth_data r lib database q st s).0 ≡ some d)
        × (d.is_authorized ≡ true)
        × IsOf q d
  unfolding perform_auth_logic get_auth_data
  perform_auth_logic-IsOf st s h =
      let key = build_cache_key q.stream_key q.client_id in
      let (d, found, authorized) = verdict_yes (get_auth_data r lib database q st s).0 h in
      (d, found, authorized, cache-IsOf key (get_auth_data_by_key r ready lib key s) st s d found)

  -- What the database vouches for.
  abbrev pub vouched : Answer → Option StreamAuthData
  vouched (row client_id is_active) =
      let d : StreamAuthData = record {
        stream_key = q.stream_key;
        client_id = client_id;
        auth_token = q.auth_token;
        is_authorized = is_active;
        expire_time = pos 0;
        metadata = [];
      } in
      if validate_auth_data d q then some d else none
  vouched _ = none

  miss_vouched :
      (answer : Answer) (key : String) (st : Stats) (s : r.Server)
      → (from_database r lib database q key
          (queried r lib database key (get_auth_data_from_db q answer) st s)).0
        ≡ vouched answer
  miss_vouched guard_throws key st s = refl
  miss_vouched no_connection key st s = refl
  miss_vouched sql_error key st s = refl
  miss_vouched no_row key st s = refl
  miss_vouched (row client_id is_active) key st s = ground arith

  -- An entry that was cached because the database had no such record, or failed, spares the
  -- database nothing: the answer is what the database vouches for now, as if there was no entry.
  pub get_auth_data_negative :
      (l : Lawful r) (st : Stats) (s : r.Server)
      → l.Online s
      → (l.view s).text (build_cache_key q.stream_key q.client_id) ≡ some "__EMPTY__"
      → (get_auth_data r lib database q st s).0 ≡ vouched (database q)
  unfolding get_auth_data get_auth_data_by_key get_string query_database
  get_auth_data_negative l st s o e =
      let key = build_cache_key q.stream_key q.client_id in
      rw (l.get_law key s o refl, e, get_auth_data) (miss_vouched (database q) key _ s)

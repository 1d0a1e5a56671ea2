-- ===== src/Auth/Manager.antt =====
-- src/auth/AuthManager.cpp: the code that an authentication calls back with. The repository's own
-- exceptions have all become answers, so that the code for them does not come up.
use stream_gate.Base.{
  ◌≡◌, refl, ap, Bool, true, false, ◌&&◌, eqb, arith, Option, none, some, if◌then◌else◌,
}
use stream_gate.Base.Int.{ℤ, pos, negsuc}
use stream_gate.Redis.{Redis}
use stream_gate.Auth.{StreamAuthData}
use stream_gate.Json.{JsonLib}
use stream_gate.Auth.Repository.{Answer, AuthRequest, Stats, get_auth_data}

abbrev pub verdict : Option StreamAuthData → ℤ
verdict none = pos 1
verdict (some d) = if d.is_authorized then pos 0 else pos 1

module _ (r : Redis) (lib : JsonLib) (database : AuthRequest → Answer) where
  unfoldable pub perform_auth_logic : AuthRequest → Stats → r.Server → ℤ × Stats × r.Server
  perform_auth_logic q st s =
      let (found, st', s') = get_auth_data r lib database q st s in (verdict found, st', s')

  -- `checkAuthAsync` when the pool has run the job; `none`: the manager is shut down and does not
  -- call back.
  unfoldable pub check_auth_async :
      Bool → AuthRequest → Stats → r.Server → Option ℤ × Stats × r.Server
  check_auth_async true q st s = (none, st, s)
  check_auth_async false q st s =
      let (code, st', s') = perform_auth_logic q st s in (some code, st', s')

  abbrev is_zero : ℤ → Bool
  is_zero (pos n) = eqb n 0
  is_zero (negsuc n) = false

  -- The synchronous check, by whether the manager is shut down, whether the pool takes the job, and
  -- whether the job ends in time; `none`: the call throws, since the pool does. A job that is late is
  -- still done.
  unfoldable pub check_auth :
      Bool → Bool → Bool → AuthRequest → Stats → r.Server → Option Bool × Stats × r.Server
  check_auth shutdown accepted in_time q st s =
      if shutdown
      then (some false, st, s)
      else if accepted
      then (let (code, st', s') = perform_auth_logic q st s in
          (some (in_time && is_zero code), st', s'))
      else (none, st, s)

  zero_code : (z : ℤ) → is_zero z ≡ true → z ≡ pos 0
  zero_code (pos n) h = ap pos (ground (arith, h))
  zero_code (negsuc n) h = cc

  -- The check says yes only if the manager runs, the pool took the job, the job ended in time, and
  -- its code is that for success.
  pub check_auth-perform_auth_logic :
      (shutdown accepted in_time : Bool) (q : AuthRequest) (st : Stats) (s : r.Server)
      → (check_auth shutdown accepted in_time q st s).0 ≡ some true
      → (shutdown ≡ false)
        × (accepted ≡ true)
        × (in_time ≡ true)
        × ((perform_auth_logic q st s).0 ≡ pos 0)
  unfolding check_auth
  check_auth-perform_auth_logic true accepted in_time q st s h = cc
  check_auth-perform_auth_logic false false in_time q st s h = cc
  check_auth-perform_auth_logic false true false q st s h = cc
  check_auth-perform_auth_logic false true true q st s h =
      (refl, refl, refl, zero_code (perform_auth_logic q st s).0 (ground (arith, h)))

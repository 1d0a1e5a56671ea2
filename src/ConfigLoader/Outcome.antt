-- ===== src/ConfigLoader/Outcome.antt =====
-- What `load` leaves, whether it succeeds or not.
use stream_gate.Base.{
  String, ◌≡◌, ◌∙◌, refl, ap, Bool, true, false, Option, none, some, List, [], ◌∷◌, if◌then◌else◌,
}
use stream_gate.Base.Fields.{Fields, lookup}
use stream_gate.Base.Maybe.{◌>>=◌}
use stream_gate.ConfigLoader.{
  ConfigLoader, LoadOptions, Validator, check_value, validate_map, next_config, accept, commit,
  load_from, load, reload,
}

-- Every validator has a value and accepts it.
abbrev pub AllValid : Fields → List (String × Validator) → Type 0
AllValid m [] = Unit {0}
AllValid m ((key, validator) ∷ rest) =
    (check_value validator (lookup key m) ≡ some true) × AllValid m rest

both :
    (o others : Option Bool)
    → (o >>= λ ok. if ok then others else some false) ≡ some true
    → (o ≡ some true) × (others ≡ some true)
both none others e = cc
both (some true) others e = (refl, e)
both (some false) others e = cc

validate_map-AllValid :
    (vs : List (String × Validator)) (m : Fields) → validate_map vs m ≡ some true → AllValid m vs
validate_map-AllValid [] m e = tt
validate_map-AllValid ((key, validator) ∷ rest) m e =
    let (first, others) = both (check_value validator (lookup key m)) (validate_map rest m) e in
    (first, validate_map-AllValid rest m others)

module _ (open_file getenv : String → Option String) (ini env : String)
    (options : LoadOptions) where
  abbrev Accepted : Option Fields → ConfigLoader → ConfigLoader → Type 0
  Accepted found l l' =
      (next : Fields) × (found ≡ some next)
      × (l' ≡ accept ini env options next l)
      × AllValid next l.validators

  -- A load that fails leaves the loader as it was. One that succeeds replaces the settings by those
  -- that were read, all of which the validators accept, and keeps its arguments for `reload`.
  abbrev pub IsAllOrNothing : Option Fields → ConfigLoader → Bool × ConfigLoader → Type 0
  IsAllOrNothing found l (true, l') = Accepted found l l'
  IsAllOrNothing found l (false, l') = l' ≡ l

  commit-IsAllOrNothing :
      (next : Fields) (ok : Option Bool) (l : ConfigLoader)
      → validate_map l.validators next ≡ ok
      → IsAllOrNothing (some next) l (commit ini env options next ok l)
  commit-IsAllOrNothing next none l e = refl
  commit-IsAllOrNothing next (some false) l e = refl
  commit-IsAllOrNothing next (some true) l e =
      (next, refl, refl, validate_map-AllValid l.validators next e)

  from-IsAllOrNothing :
      (found : Option Fields) (l : ConfigLoader)
      → IsAllOrNothing found l (load_from ini env options found l)
  from-IsAllOrNothing none l = refl
  from-IsAllOrNothing (some next) l =
      commit-IsAllOrNothing next (validate_map l.validators next) l refl

  -- `load` does all or nothing: if it returns false the loader is as it was, and if it returns true
  -- the settings are those of the files and the environment, every validator accepts them, and the
  -- arguments are kept for `reload`.
  pub load-IsAllOrNothing :
      (l : ConfigLoader)
      → IsAllOrNothing
          (next_config open_file getenv ini env options)
          l
          (load open_file getenv ini env options l)
  unfolding load
  load-IsAllOrNothing l = from-IsAllOrNothing (next_config open_file getenv ini env options) l

  valid_map :
      (vs : List (String × Validator)) (m : Fields) → AllValid m vs → validate_map vs m ≡ some true
  valid_map [] m h = refl
  valid_map ((key, validator) ∷ rest) m (first, others) = rw (first, valid_map rest m others) refl

  reload_accepted :
      (next : Fields) (l : ConfigLoader)
      → next_config open_file getenv ini env options ≡ some next
      → validate_map l.validators next ≡ some true
      → reload open_file getenv (accept ini env options next l) ≡ accept ini env options next l
  unfolding reload load
  reload_accepted next l found valid =
      let l' = accept ini env options next l in
      ap (λ o. (load_from ini env options o l').1) found
      ∙ ap (λ o. (commit ini env options next o l').1) valid

  reload_outcome :
      (l : ConfigLoader) (x : Bool × ConfigLoader)
      → IsAllOrNothing (next_config open_file getenv ini env options) l x
      → x.0 ≡ true
      → reload open_file getenv x.1 ≡ x.1
  reload_outcome l (false, l') h t = cc
  reload_outcome l (true, l') (next, found, same, valid) t =
      rw same (reload_accepted next l found (valid_map l.validators next valid))

  -- After a load that succeeded, a reload from the same files and the same environment changes
  -- nothing.
  pub reload-load :
      (l : ConfigLoader)
      → (load open_file getenv ini env options l).0 ≡ true
      → reload open_file getenv (load open_file getenv ini env options l).1
        ≡ (load open_file getenv ini env options l).1
  reload-load l t =
      reload_outcome l (load open_file getenv ini env options l) (load-IsAllOrNothing l) t

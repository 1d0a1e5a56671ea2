-- ===== src/DbManager/Driver.antt =====
-- `createConnection` and `validateConnection` of src/db/DBManager.cpp, over the driver of the
-- database, a parameter with a state of its own; and the pool's threads with such a driver.
use stream_gate.Base.{
  ℕ, String, ◌≡◌, refl, sym, ap, ◌∙◌, Bool, true, false, Option, none, some, List, [], ◌∷◌,
}
use stream_gate.Base.Slots.{slot_at, slot_at-set_slot}
use stream_gate.DbManager.{
  Phase, acquiring, creating, validating, holding, Manager, Answer, Event, turn, validated, step,
  run,
}

-- A call of the driver gives an object, gives a null pointer, or throws.
pub data Try : Type 0 where
  threw null : Try
  gave : ℕ → Try

pub data Row : Type 0 where
  failed no_row one_row : Row

-- Statements and results are known by numbers, as connections are.
pub record Driver (W : Type 0) : Type 0 where
  pub connect : String → String → String → W → Try × W
  pub create_statement : ℕ → W → Try × W
  pub execute_query : ℕ → String → W → Try × W
  pub next : ℕ → W → Row × W

-- `_config.url`, `_config.user` and `_config.password`
pub record Account : Type 0 where
  pub url : String
  pub user : String
  pub password : String

-- What else a thread meets in its turn: the weak exchange, and the deadline.
pub record Luck : Type 0 where
  pub exchanged : Bool
  pub is_late : Bool

module _ {W : Type 0} (driver : Driver W) where
  connection_of : Try × W → Option ℕ × W
  connection_of (threw, s) = (none, s)
  connection_of (null, s) = (none, s)
  connection_of (gave conn, s) = (some conn, s)

  unfoldable pub create_connection : Account → W → Option ℕ × W
  unfolding connection_of
  create_connection account s =
      connection_of (driver.connect account.url account.user account.password s)

  has_row : Row × W → Bool × W
  has_row (failed, s) = (false, s)
  has_row (no_row, s) = (false, s)
  has_row (one_row, s) = (true, s)

  read_result : Try × W → Bool × W
  unfolding has_row
  read_result (threw, s) = (false, s)
  read_result (null, s) = (false, s)
  read_result (gave result, s) = has_row (driver.next result s)

  send_query : Try × W → Bool × W
  unfolding read_result
  send_query (threw, s) = (false, s)
  send_query (null, s) = (false, s)
  send_query (gave statement, s) = read_result (driver.execute_query statement "SELECT 1" s)

  unfoldable pub validate_connection : ℕ → W → Bool × W
  unfolding send_query
  validate_connection conn s = send_query (driver.create_statement conn s)

  -- What the driver answers to a thread in its phase; most steps do not call it.
  answer_at : Account → Luck → Option Phase → W → Answer × W
  unfolding create_connection validate_connection
  answer_at account luck (some (validating conn)) s =
      let (is_valid, s') = validate_connection conn s in
      (
        record {
          exchanged = luck.exchanged;
          is_valid = is_valid;
          made = none;
          is_late = luck.is_late;
        },
        s',
      )
  answer_at account luck (some creating) s =
      let (made, s') = create_connection account s in
      (
        record {
          exchanged = luck.exchanged;
          is_valid = false;
          made = made;
          is_late = luck.is_late;
        },
        s',
      )
  answer_at account luck phase s = (
    record { exchanged = luck.exchanged; is_valid = false; made = none; is_late = luck.is_late },
    s,
  )

  -- A turn of thread `i` whose driver is the given one.
  unfoldable pub turn_with : Account → ℕ → Luck → Manager × W → Manager × W
  unfolding answer_at
  turn_with account i luck (m, s) =
      let (a, s') = answer_at account luck (slot_at i m.threads) s in (step (turn i a) m, s')

  unfoldable pub run_with : Account → List (ℕ × Luck) → Manager × W → Manager × W
  run_with account [] x = x
  run_with account ((i, luck) ∷ ts) x = run_with account ts (turn_with account i luck x)

  -- The events of the pool that the turns with this driver come to.
  unfoldable pub events_with : Account → List (ℕ × Luck) → Manager × W → List Event
  unfolding answer_at
  events_with account [] x = []
  events_with account ((i, luck) ∷ ts) (m, s) =
      turn i (answer_at account luck (slot_at i m.threads) s).0
      ∷ events_with account ts (turn_with account i luck (m, s))

  -- Whatever the driver does, its threads do what some events of the pool do, so that what holds of
  -- every run of the pool holds with any driver.
  pub run_with-run :
      (account : Account) (ts : List (ℕ × Luck)) (m : Manager) (s : W)
      → (run_with account ts (m, s)).0 ≡ run (events_with account ts (m, s)) m
  unfolding run_with events_with run turn_with
  run_with-run account [] m s = refl
  run_with-run account ((i, luck) ∷ ts) m s =
      let x = turn_with account i luck (m, s) in run_with-run account ts x.0 x.1

  has_row-one_row : (x : Row × W) → (has_row x).0 ≡ true → x.0 ≡ one_row
  unfolding has_row
  has_row-one_row (failed, s) h = cc
  has_row-one_row (no_row, s) h = cc
  has_row-one_row (one_row, s) h = refl

  -- A result was given, and its first row is there.
  abbrev HasRow : Try × W → Type 0
  HasRow x = (result : ℕ) × (s : W) × (x ≡ (gave result, s)) × ((driver.next result s).0 ≡ one_row)

  read_result-HasRow : (x : Try × W) → (read_result x).0 ≡ true → HasRow x
  unfolding read_result
  read_result-HasRow (threw, s) h = cc
  read_result-HasRow (null, s) h = cc
  read_result-HasRow (gave result, s) h =
      (result, s, refl, has_row-one_row (driver.next result s) h)

  -- A statement was given, and its query has a row.
  abbrev IsAnswered : Try × W → Type 0
  IsAnswered x =
      (statement : ℕ) × (s : W) × (x ≡ (gave statement, s))
      × HasRow (driver.execute_query statement "SELECT 1" s)

  send_query-IsAnswered : (x : Try × W) → (send_query x).0 ≡ true → IsAnswered x
  unfolding send_query
  send_query-IsAnswered (threw, s) h = cc
  send_query-IsAnswered (null, s) h = cc
  send_query-IsAnswered (gave statement, s) h =
      (statement, s, refl, read_result-HasRow (driver.execute_query statement "SELECT 1" s) h)

  is_holding : Option Phase → Bool
  is_holding (some (holding conn)) = true
  is_holding phase = false

  validated-is_valid :
      (i conn : ℕ) (m : Manager) (b : Bool)
      → slot_at i m.threads ≡ some (validating conn)
      → is_holding (slot_at i (validated i b conn m).threads) ≡ true
      → b ≡ true
  unfolding is_holding
  validated-is_valid i conn m true e h = refl
  validated-is_valid i conn m false e h =
      let back = slot_at-set_slot i (validating conn) acquiring m.threads e in
      sym (ap is_holding back) ∙ h

  turn_with-validated :
      (account : Account) (i conn : ℕ) (luck : Luck) (m : Manager) (s : W)
      → slot_at i m.threads ≡ some (validating conn)
      → (turn_with account i luck (m, s)).0 ≡ validated i (validate_connection conn s).0 conn m
  unfolding turn_with answer_at step
  turn_with-validated account i conn luck m s e = rw e refl

  -- A thread gets a connection of the pool only after the driver made a statement of it, ran
  -- "SELECT 1" and gave a row: with any driver, whatever it throws.
  pub turn_with-IsAnswered :
      (account : Account) (i conn : ℕ) (luck : Luck) (m : Manager) (s : W)
      → slot_at i m.threads ≡ some (validating conn)
      → slot_at i (turn_with account i luck (m, s)).0.threads ≡ some (holding conn)
      → IsAnswered (driver.create_statement conn s)
  unfolding validate_connection is_holding
  turn_with-IsAnswered account i conn luck m s e h =
      let is_valid = (validate_connection conn s).0 in
      let turned = turn_with-validated account i conn luck m s e in
      let given : is_holding (slot_at i (validated i is_valid conn m).threads) ≡ true =
        ap (λ n. is_holding (slot_at i n.threads)) (sym turned) ∙ ap is_holding h in
      send_query-IsAnswered (driver.create_statement conn s)
        (validated-is_valid i conn m is_valid e given)

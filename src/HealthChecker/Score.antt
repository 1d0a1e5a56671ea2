-- ===== src/HealthChecker/Score.antt =====
-- The status and the score of a report.
use stream_gate.Base.{
  ℕ, String, ◌+◌, ◌*◌, ◌/◌, ◌≤◌, ◌≡◌, ◌↔◌, refl, sym, ◌∙◌, Bool, true, false, Option, List, [], ◌∷◌,
  ltb, arith, if◌then◌else◌,
}
use stream_gate.DbManager.{PoolStats}
use stream_gate.HealthChecker.{
  HealthStatus, healthy, degraded, unhealthy, ComponentHealth, Probe, points, overall_from,
  calculate_overall_status, calculate_health_score, check, check_redis, check_database,
  check_scheduler,
}

-- How bad a status is.
abbrev pub severity : HealthStatus → ℕ
severity healthy = 0
severity degraded = 1
severity unhealthy = 2

-- The larger one.
abbrev larger : ℕ → ℕ → ℕ
larger a b = if ltb a b then b else a

abbrev pub worst : List ComponentHealth → ℕ
worst [] = 0
worst (comp ∷ rest) = larger (worst rest) (severity comp.status)

low : (s : HealthStatus) → severity s ≤ 2
low healthy = omega arith
low degraded = omega arith
low unhealthy = omega arith

worst_low : (cs : List ComponentHealth) → worst cs ≤ 2
worst_low [] = omega arith
worst_low (comp ∷ rest) = ground (arith, worst_low rest, low comp.status)

abbrev at_least : Bool → ℕ
at_least b = if b then 1 else 0

-- One component: `t` and `u` are what the rest gives if a degraded one was met, and if not.
one_more :
    (s t u : HealthStatus) (x w : ℕ)
    → severity t ≡ larger 1 w
    → severity u ≡ larger x w
    → w ≤ 2
    → x ≤ 1
    → severity (elim s [ unhealthy ↦ unhealthy | degraded ↦ t | healthy ↦ u ])
      ≡ larger x (larger w (severity s))
one_more healthy t u x w et eu hw hx = ground (arith, eu)
one_more degraded t u x w et eu hw hx = ground (arith, et, hw, hx)
one_more unhealthy t u x w et eu hw hx = ground (arith, hw, hx)

at_most_one : (b : Bool) → at_least b ≤ 1
at_most_one true = omega arith
at_most_one false = omega arith

overall_worst :
    (b : Bool) (cs : List ComponentHealth)
    → severity (overall_from b cs) ≡ larger (at_least b) (worst cs)
overall_worst true [] = refl
overall_worst false [] = refl
overall_worst b (comp ∷ rest) =
    one_more comp.status (overall_from true rest) (overall_from b rest) (at_least b) (worst rest)
      (overall_worst true rest) (overall_worst b rest) (worst_low rest) (at_most_one b)

larger_zero : (w : ℕ) → larger 0 w ≡ w
larger_zero w = ground arith

-- The overall status is the worst of the components'.
pub calculate_overall_status_lem :
    (cs : List ComponentHealth) → severity (calculate_overall_status cs) ≡ worst cs
unfolding calculate_overall_status
calculate_overall_status_lem cs = overall_worst false cs ∙ larger_zero (worst cs)

points_lost : (s : HealthStatus) → points s + 50 * severity s ≡ 100
points_lost healthy = omega arith
points_lost degraded = omega arith
points_lost unhealthy = omega arith

all_or_less :
    (p q r x y z : ℕ)
    → p + 50 * x ≡ 100
    → q + 50 * y ≡ 100
    → r + 50 * z ≡ 100
    → ((p + (q + (r + 0))) / 3 ≤ 100)
      × ((p + (q + (r + 0))) / 3 ≡ 100 → larger (larger (larger 0 z) y) x ≡ 0)
      × (larger (larger (larger 0 z) y) x ≡ 0 → (p + (q + (r + 0))) / 3 ≡ 100)
all_or_less p q r x y z hp hq hr = ground (arith, hp, hq, hr)

no_severity : (s : HealthStatus) → (severity s ≡ 0) ↔ (s ≡ healthy)
no_severity healthy = (λ e. refl, λ e. refl)
no_severity degraded = (λ e. absurd (omega (arith, e)), λ e. cc)
no_severity unhealthy = (λ e. absurd (omega (arith, e)), λ e. cc)

-- A report's overall status is the worst of the three components'; its score is at most 100, and 100
-- exactly if the overall status is healthy.
pub check-score :
    (timestamp : String) (cache : Option (Probe Bool)) (db : Option (Probe PoolStats))
    (scheduler : Option (Probe (ℕ × ℕ)))
    → (severity (check timestamp cache db scheduler).overall_status
        ≡ worst (check timestamp cache db scheduler).components)
      × ((check timestamp cache db scheduler).score ≤ 100)
      × (((check timestamp cache db scheduler).score ≡ 100)
          ↔ ((check timestamp cache db scheduler).overall_status ≡ healthy))
unfolding check calculate_overall_status calculate_health_score
check-score timestamp cache db scheduler =
    let cs = (check timestamp cache db scheduler).components in
    let bad = calculate_overall_status_lem cs in
    let a = (check_redis cache).status in
    let b = (check_database db).status in
    let c = (check_scheduler scheduler).status in
    let (bounded, best, full) =
      all_or_less (points a) (points b) (points c) (severity a) (severity b) (severity c)
        (points_lost a) (points_lost b) (points_lost c) in
    let (to, from) = no_severity (calculate_overall_status cs) in
    (bad, bounded, (λ e. to (bad ∙ best e), λ e. full (sym bad ∙ from e)))

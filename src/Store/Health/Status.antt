-- ===== src/Store/Health/Status.antt =====
-- The runtime's health as its records are kept:
-- apps/bridge/src/state-store/host-health-transitions.ts.
use ariava.Prelude.{
  ℕ, ◌+◌, String, ◌≡◌, refl, ap, Bool, true, false, not, ◌||◌, Option, none, some, List, [], ◌∷◌,
  ◌++◌, find, any, keep_if, string_eq, arith, eq_iff, Option-cases, find-eq-some, inl, inr,
}
use ariava.Prelude.Sorting.{sort_by, any-sort_by, find-insert_sorted, sort_by-cons, sort_by-single}
use ariava.Store.State.{
  Timestamp, DriverHealth, HealthStatus, healthy, degraded, BridgeState, after,
}
use ariava.Store.Health.{
  current_health, is_driver, is_other, is_empty, is_none, driver_failure, by_driver,
  record_presence_failure, record_presence_success, record_driver_success, record_driver_failure,
}

pub data Report : Type 0 where
  driver_fails : String → Timestamp → Timestamp → Report
  driver_succeeds : String → Report
  presence_fails : Timestamp → Timestamp → Report
  presence_succeeds : Report

abbrev pub is_degraded : HealthStatus → Bool
is_degraded healthy = false
is_degraded degraded = true

-- The status is degraded exactly when a failure is on record.
abbrev pub IsConsistent : BridgeState → Type 0
IsConsistent s =
    is_degraded (current_health s).status
    ≡ (not (is_empty (current_health s).drivers) || not (is_none (current_health s).relay_presence))

any-append : {A : Type 0} (p : A → Bool) (xs ys : List A) → any p (xs ++ ys) ≡ any p xs || any p ys
any-append p [] ys = refl
any-append p (x ∷ xs) ys = ground (arith, any-append p xs ys)

is_empty-any : {A : Type 0} (xs : List A) → not (is_empty xs) ≡ any (λ _. true) xs
is_empty-any [] = refl
is_empty-any (x ∷ xs) = refl

-- A list that ends in an element is not empty when it is sorted.
sorted_is_empty :
    {A : Type 0} (above : A → A → Bool) (xs : List A) (x : A)
    → is_empty (sort_by above (xs ++ x ∷ [])) ≡ false
sorted_is_empty above xs x = ground (
  arith,
  is_empty-any (sort_by above (xs ++ x ∷ [])),
  any-sort_by above (λ _. true) (xs ++ x ∷ []),
  any-append (λ _. true) xs (x ∷ []),
)

module _ (above : String → String → Bool) where
  abbrev pub report : BridgeState → Report → BridgeState
  report s (driver_fails driver seen retry) =
      after s (record_driver_failure above s driver seen retry)
  report s (driver_succeeds driver) = after s (record_driver_success s driver)
  report s (presence_fails seen retry) = after s (record_presence_failure s seen retry)
  report s presence_succeeds = after s (record_presence_success s)

  abbrev pub report_all : BridgeState → List Report → BridgeState
  report_all s [] = s
  report_all s (r ∷ rs) = report_all (report s r) rs

  report-IsConsistent : (s : BridgeState) (r : Report) → IsConsistent s → IsConsistent (report s r)
  unfolding record_driver_failure record_driver_success record_presence_failure
      record_presence_success
  report-IsConsistent s (driver_fails driver seen retry) h = ground (
    arith,
    sorted_is_empty (by_driver above) (keep_if (is_other driver) (current_health s).drivers)
        (driver_failure (find (is_driver driver) (current_health s).drivers) driver seen retry),
  )
  report-IsConsistent s (driver_succeeds driver) h = ground arith
  report-IsConsistent s (presence_fails seen retry) h = ground arith
  report-IsConsistent s presence_succeeds h = ground arith

  -- Through any reports the status stays degraded exactly when a failure is on record.
  pub report_all-IsConsistent :
      (s : BridgeState) (rs : List Report) → IsConsistent s → IsConsistent (report_all s rs)
  report_all-IsConsistent s [] h = h
  report_all-IsConsistent s (r ∷ rs) h =
      report_all-IsConsistent (report s r) rs (report-IsConsistent s r h)

no_driver_left :
    (driver : String) (xs : List DriverHealth)
    → any (is_driver driver) (keep_if (is_other driver) xs) ≡ false
no_driver_left driver [] = refl
no_driver_left driver (x ∷ xs) = ground (arith, no_driver_left driver xs)

find-sort_last :
    {A : Type 0} (above : A → A → Bool) (p : A → Bool) (xs : List A) (x : A)
    → any p xs ≡ false
    → p x ≡ true
    → find p (sort_by above (xs ++ x ∷ [])) ≡ some x
find-sort_last above p [] x h hx = ground (arith, sort_by-single above x)
find-sort_last above p (y ∷ ys) x h hx = ground (
  arith,
  sort_by-cons above y (ys ++ x ∷ []),
  find-insert_sorted above p y (sort_by above (ys ++ x ∷ [])),
  find-sort_last above p ys x,
)

abbrev pub count_of : Option DriverHealth → ℕ
count_of none = 0
count_of (some item) = item.count

-- How often the driver has failed since it last succeeded.
abbrev pub failures : BridgeState → String → ℕ
failures s driver = count_of (find (is_driver driver) (current_health s).drivers)

driver_of-failure :
    (driver : String) (xs : List DriverHealth) (seen retry : Timestamp)
    → (driver_failure (find (is_driver driver) xs) driver seen retry).driver ≡ driver
driver_of-failure driver xs seen retry = elim (Option-cases (find (is_driver driver) xs)) [
  | inl none_yet ↦ rw none_yet refl
  | inr (item, has) ↦
      rw has ((eq_iff item.driver driver).0 (find-eq-some (is_driver driver) xs item has))
]

counted :
    (o : Option DriverHealth) (driver : String) (seen retry : Timestamp)
    → (driver_failure o driver seen retry).count ≡ count_of o + 1
counted none driver seen retry = omega arith
counted (some item) driver seen retry = refl

-- A driver that succeeds after a failure reports its failures before, and that one.
pub driver-recovers :
    (above : String → String → Bool) (s : BridgeState) (driver : String) (seen retry : Timestamp)
    → (record_driver_success
        (after s (record_driver_failure above s driver seen retry))
        driver).result
      ≡ some (failures s driver + 1)
unfolding record_driver_failure record_driver_success
driver-recovers above s driver seen retry =
    let entry =
      driver_failure (find (is_driver driver) (current_health s).drivers) driver seen retry in
    let named : is_driver driver entry ≡ true =
      (eq_iff entry.driver driver).1
        (driver_of-failure driver (current_health s).drivers seen retry) in
    rw
      (
        record_driver_success,
        find-sort_last (by_driver above) (is_driver driver)
            (keep_if (is_other driver) (current_health s).drivers) entry
            (no_driver_left driver (current_health s).drivers) named,
      )
      (ap some (counted (find (is_driver driver) (current_health s).drivers) driver seen retry))

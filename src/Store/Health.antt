-- ===== src/Store/Health.antt =====
-- The Host projection and the runtime's health:
-- apps/bridge/src/state-store/host-health-transitions.ts. `localeCompare`, which the platform's
-- collation decides, is the parameter `above`: left.localeCompare(right) > 0.
pub mod Status
use ariava.Prelude.{
  ℕ, ◌+◌, String, Bool, true, false, not, ◌&&◌, ◌||◌, Option, none, some, List, [], ◌∷◌, ◌++◌, ◌==◌,
  ◌!=◌, if◌then◌else◌, find, keep_if, string_eq,
}
use ariava.Prelude.Sorting.{sort_by}
use ariava.Store.State.{
  Timestamp, DriverHealth, PresenceHealth, HealthStatus, healthy, degraded, RuntimeHealth,
  HostProjection, BridgeState, StateTransition, unchanged, replaced,
}

abbrev pub empty_runtime_health : RuntimeHealth
empty_runtime_health = record { status = healthy; drivers = []; relay_presence = none }

abbrev or_empty : Option RuntimeHealth → RuntimeHealth
or_empty none = empty_runtime_health
or_empty (some health) = health

abbrev pub current_health : BridgeState → RuntimeHealth
current_health s = or_empty s.runtime_health

pub sanitize_persisted_host : Option HostProjection → Option HostProjection
sanitize_persisted_host none = none
sanitize_persisted_host (some host) =
    some (record host { claim_code = none; claim_code_expires_at = none; owner_user_id = none })

pub set_host : BridgeState → HostProjection → StateTransition (Unit {0})
unfolding sanitize_persisted_host
set_host state host = record {
  state = replaced (record state { host = sanitize_persisted_host (some host) });
  result = tt;
}

abbrev pub with_health : BridgeState → RuntimeHealth → BridgeState
with_health s health = record s { runtime_health = some health }

abbrev pub is_driver : String → DriverHealth → Bool
is_driver driver item = item.driver == driver

abbrev pub is_other : String → DriverHealth → Bool
is_other driver item = item.driver != driver

abbrev pub is_empty {ℓ} : {A : Type ℓ} → List A → Bool
is_empty [] = true
is_empty (x ∷ xs) = false

abbrev pub is_none {ℓ} : {A : Type ℓ} → Option A → Bool
is_none none = true
is_none (some a) = false

-- `existing ? { ...existing, count: existing.count + 1, ... } : { ... }`
abbrev pub driver_failure : Option DriverHealth → String → Timestamp → Timestamp → DriverHealth
driver_failure (some existing) driver seen_at next_retry_at = record existing {
  count = existing.count + 1;
  last_seen_at = seen_at;
  next_retry_at = next_retry_at;
}
driver_failure none driver seen_at next_retry_at = record {
  driver = driver;
  count = 1;
  first_seen_at = seen_at;
  last_seen_at = seen_at;
  last_success_at = none;
  next_retry_at = next_retry_at;
}

abbrev pub presence_failure : Option PresenceHealth → Timestamp → Timestamp → PresenceHealth
presence_failure (some existing) seen_at next_retry_at = record existing {
  count = existing.count + 1;
  last_seen_at = seen_at;
  next_retry_at = next_retry_at;
}
presence_failure none seen_at next_retry_at = record {
  count = 1;
  first_seen_at = seen_at;
  last_seen_at = seen_at;
  last_success_at = none;
  next_retry_at = next_retry_at;
}

pub record_presence_failure : BridgeState → Timestamp → Timestamp → StateTransition (Unit {0})
record_presence_failure state seen_at next_retry_at =
    let health = current_health state in
    record {
      state = replaced (
          with_health state (record health {
            relay_presence = some (presence_failure health.relay_presence seen_at next_retry_at);
            status = degraded;
          }));
      result = tt;
    }

pub record_presence_success : BridgeState → StateTransition (Option ℕ)
record_presence_success state =
    let health = current_health state in
    elim health.relay_presence [
      | none ↦ record { state = unchanged; result = none }
      | some recovered ↦ record {
        state = replaced (
            with_health state (record health {
              relay_presence = none;
              status = if is_empty health.drivers then healthy else degraded;
            }));
        result = some recovered.count;
      }
    ]

pub record_driver_success : BridgeState → String → StateTransition (Option ℕ)
record_driver_success state driver =
    let health = current_health state in
    elim (find (is_driver driver) health.drivers) [
      | none ↦ record { state = unchanged; result = none }
      | some recovered ↦
          let drivers = keep_if (is_other driver) health.drivers in
          record {
            state = replaced (
                with_health state (record health {
                  drivers = drivers;
                  status =
                      if not (is_empty drivers) || not (is_none health.relay_presence)
                      then degraded
                      else healthy;
                }));
            result = some recovered.count;
          }
    ]

module _ (above : String → String → Bool) where
  abbrev by_driver : DriverHealth → DriverHealth → Bool
  by_driver a b = above a.driver b.driver

  pub read_runtime_health : BridgeState → RuntimeHealth
  read_runtime_health state =
      let health = current_health state in
      record health { drivers = sort_by by_driver health.drivers }

  pub record_driver_failure :
      BridgeState → String → Timestamp → Timestamp → StateTransition DriverHealth
  record_driver_failure state driver seen_at next_retry_at =
      let health = current_health state in
      let degradation =
        driver_failure (find (is_driver driver) health.drivers) driver seen_at next_retry_at in
      record {
        state = replaced (
            with_health state (record health {
              drivers =
                  sort_by by_driver (keep_if (is_other driver) health.drivers ++ degradation ∷ []);
              status = degraded;
            }));
        result = degradation;
      }

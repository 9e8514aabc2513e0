-- ===== src/Store/Sessions/Lookup.antt =====
-- The full-driver replacement, seen through lookups.
use ariava.Prelude.{
  String, ◌≡◌, refl, Bool, true, false, not, ◌&&◌, Option, none, some, List, [], ◌∷◌, ◌==◌,
  if◌then◌else◌, arith, eq_iff, option_eq, string_eq,
}
use ariava.Prelude.Dict.{Dict, lookup, insert, contains, lookup-insert, lookup-remove}
use ariava.Store.State.{CanonicalSession}
use ariava.Store.Sessions.{Bindings, drop_stale_one, drop_stale, bind_all, session_ids}

-- The last of the given sessions that has an id.
abbrev pub last_with : List CanonicalSession → String → Option CanonicalSession
last_with [] k = none
last_with (s ∷ ss) k = elim (last_with ss k) [
  | some t ↦ some t
  | none ↦ if s.session_id == k then some s else none
]

abbrev pub is_some {ℓ} : {A : Type ℓ} → Option A → Bool
is_some none = false
is_some (some a) = true

abbrev pub or_else {ℓ} : {A : Type ℓ} → Option A → Option A → Option A
or_else none b = b
or_else (some a) b = some a

pub contains-last_with :
    (ss : List CanonicalSession) (k : String)
    → contains (session_ids ss) k ≡ is_some (last_with ss k)
contains-last_with [] k = refl
contains-last_with (s ∷ ss) k = ground (arith, contains-last_with ss k)

module _ (driver : String) where
  pub drivers-bind_all :
      (ss : List CanonicalSession) (b : Bindings) (k : String)
      → lookup (bind_all driver ss b).drivers k
        ≡ (if contains (session_ids ss) k then some driver else lookup b.drivers k)
  unfolding bind_all
  drivers-bind_all [] b k = refl
  drivers-bind_all (s ∷ ss) b k = ground (
    arith,
    drivers-bind_all ss
        (record {
          sessions = insert b.sessions s.session_id s;
          drivers = insert b.drivers s.session_id driver;
        })
        k,
    lookup-insert b.drivers s.session_id driver k,
  )

  pub sessions-bind_all :
      (ss : List CanonicalSession) (b : Bindings) (k : String)
      → lookup (bind_all driver ss b).sessions k ≡ or_else (last_with ss k) (lookup b.sessions k)
  unfolding bind_all
  sessions-bind_all [] b k = refl
  sessions-bind_all (s ∷ ss) b k = ground (
    arith,
    sessions-bind_all ss
        (record {
          sessions = insert b.sessions s.session_id s;
          drivers = insert b.drivers s.session_id driver;
        })
        k,
    lookup-insert b.sessions s.session_id s k,
  )

-- A session is stale when the driver has it and the new set has not.
abbrev pub is_stale : Dict String → String → List String → String → Bool
is_stale drivers driver ids k = lookup drivers k == some driver && not (contains ids k)

module _ (old : Dict String) (driver : String) (ids : List String) where
  drivers-drop_one :
      (b : Bindings) (j k : String)
      → lookup (drop_stale_one old driver ids j b).drivers k
        ≡ (if j == k && is_stale old driver ids k then none else lookup b.drivers k)
  unfolding drop_stale_one
  drivers-drop_one b j k = ground (arith, eq_iff j k, lookup-remove b.drivers j k)

  sessions-drop_one :
      (b : Bindings) (j k : String)
      → lookup (drop_stale_one old driver ids j b).sessions k
        ≡ (if j == k && is_stale old driver ids k then none else lookup b.sessions k)
  unfolding drop_stale_one
  sessions-drop_one b j k = ground (arith, eq_iff j k, lookup-remove b.sessions j k)

  pub drivers-drop_stale :
      (ks : List String) (b : Bindings) (k : String)
      → lookup (drop_stale old driver ids ks b).drivers k
        ≡ (if contains ks k && is_stale old driver ids k then none else lookup b.drivers k)
  unfolding drop_stale
  drivers-drop_stale [] b k = refl
  drivers-drop_stale (j ∷ js) b k =
      ground
        (arith, drivers-drop_stale js (drop_stale_one old driver ids j b) k, drivers-drop_one b j k)

  pub sessions-drop_stale :
      (ks : List String) (b : Bindings) (k : String)
      → lookup (drop_stale old driver ids ks b).sessions k
        ≡ (if contains ks k && is_stale old driver ids k then none else lookup b.sessions k)
  unfolding drop_stale
  sessions-drop_stale [] b k = refl
  sessions-drop_stale (j ∷ js) b k =
      ground (
        arith,
        sessions-drop_stale js (drop_stale_one old driver ids j b) k,
        sessions-drop_one b j k,
      )

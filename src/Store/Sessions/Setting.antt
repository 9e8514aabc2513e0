-- ===== src/Store/Sessions/Setting.antt =====
-- Setting a session's driver keeps the relations of sessions: `setSessionDriverTransition`,
-- apps/bridge/src/state-store/session-transitions.ts.
use mathlib.Core.Path.{subst}
use ariava.Prelude.{
  String, ◌≡◌, ◌≢◌, refl, sym, ◌∙◌, ◌⊎◌, inl, inr, false, ◌&&◌, ◌||◌, Option, none, some, ◌==◌,
  ◌!=◌, ok, arith, eq_iff, Bool-cases, string_eq, ok-injective,
}
use ariava.Prelude.Dict.{
  Dict, lookup, insert, lookup-insert_ne, lookup-insert-some, lookup-insert_self,
}
use ariava.Store.State.{CanonicalSession, BridgeState, after, StateTransition, replaced}
use ariava.Store.Sessions.{set_session_driver, bind_session, or_stored}
use ariava.Store.Sessions.Relations.{SessionRelations}

abbrev bound_to : BridgeState → String → String → CanonicalSession → BridgeState
bound_to state id driver s = record state {
  sessions = insert state.sessions id s;
  session_drivers = insert state.session_drivers id driver;
}

still_there :
    (d : Dict CanonicalSession) (id k : String) (s : CanonicalSession)
    → lookup d k ≢ none
    → lookup (insert d id s) k ≢ none
still_there d id k s present gone = elim (Bool-cases (id == k)) [
  | inl here ↦
      let found : lookup (insert d id s) k ≡ some s =
        subst (λ j. lookup (insert d id s) j ≡ some s) ((eq_iff id k).0 here)
          (lookup-insert_self d id s) in
      cc
  | inr other ↦ present (sym (lookup-insert_ne d id k s other) ∙ gone)
]

module _ (host : String) (state : BridgeState) (id driver : String)
    (r : SessionRelations host state) where
  bound-SessionRelations :
      (s : CanonicalSession)
      → s.session_id ≡ id
      → s.host_id ≡ host
      → (driver ≡ "agent-adapter") ⊎ (driver ≡ s.provider)
      → SessionRelations host (bound_to state id driver s)
  bound-SessionRelations s named hosted provides = record {
    sessions = λ k s' h. elim (lookup-insert-some state.sessions id k s h) [
      | inl (here, same) ↦ rw same (named ∙ here, hosted)
      | inr (_, was) ↦ r.sessions k s' was
    ];
    drivers = λ k d h. elim (lookup-insert-some state.session_drivers id k driver h) [
      | inl (here, same) ↦ (
        s,
        subst (λ j. lookup (insert state.sessions id s) j ≡ some s) here
            (lookup-insert_self state.sessions id s),
        named ∙ here,
        rw same provides,
      )
      | inr (other, was) ↦
          let (t, found, own, right) = r.drivers k d was in
          (t, lookup-insert_ne state.sessions id k s other ∙ found, own, right)
    ];
    checkpoints = λ k c h.
        let (own, present) = r.checkpoints k c h in
        (own, still_there state.sessions id k s present);
  }

  bind-SessionRelations :
      (o : Option CanonicalSession) (t : StateTransition (Unit {0}))
      → ((s : CanonicalSession) → o ≡ some s → s.host_id ≡ host)
      → bind_session state id driver o ≡ ok t
      → SessionRelations host (after state t)
  unfolding bind_session
  bind-SessionRelations none t hosted h = cc
  bind-SessionRelations (some s) t hosted h =
      elim (Bool-cases (s.session_id != id || s.provider != driver && driver != "agent-adapter")) [
        | inl bad ↦ ground arith
        | inr fine ↦
            let made : ok (record { state = replaced (bound_to state id driver s); result = tt })
                ≡ ok t =
              rw fine at h in
            rw (sym (ok-injective made)) (
              bound-SessionRelations s (ground (arith, eq_iff s.session_id id)) (hosted s refl)
                (provided s fine))
      ]
    where
      provided :
          (s : CanonicalSession)
          → (s.session_id != id || s.provider != driver && driver != "agent-adapter") ≡ false
          → (driver ≡ "agent-adapter") ⊎ (driver ≡ s.provider)
      provided s fine = elim (Bool-cases (driver == "agent-adapter")) [
        | inl adapter ↦ inl ((eq_iff driver "agent-adapter").0 adapter)
        | inr other ↦ inr (ground (arith, eq_iff s.provider driver))
      ]

  stored_hosted :
      (session : Option CanonicalSession)
      → ((s : CanonicalSession) → session ≡ some s → s.host_id ≡ host)
      → (s : CanonicalSession) → or_stored session (lookup state.sessions id) ≡ some s
      → s.host_id ≡ host
  stored_hosted none given s h = (r.sessions id s h).1
  stored_hosted (some given_session) given s h = given s h

-- Setting a session's driver, where it succeeds, keeps the relations of sessions, drivers and
-- checkpoints, when a session that is passed in belongs to the Host.
pub set-SessionRelations :
    (host : String) (state : BridgeState) (id driver : String) (session : Option CanonicalSession)
    (t : StateTransition (Unit {0}))
    → SessionRelations host state
    → ((s : CanonicalSession) → session ≡ some s → s.host_id ≡ host)
    → set_session_driver state id driver session ≡ ok t
    → SessionRelations host (after state t)
unfolding set_session_driver
set-SessionRelations host state id driver session t r given h =
    bind-SessionRelations host state id driver r (or_stored session (lookup state.sessions id)) t
      (stored_hosted host state id driver r session given) h

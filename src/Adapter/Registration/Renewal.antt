-- ===== src/Adapter/Registration/Renewal.antt =====
-- What a registration or a heartbeat changes of a session.
use mathlib.Core.Path.{subst}
use ariava.Prelude.{
  String, Bool, true, false, ◌&&◌, ◌≡◌, ◌≢◌, ◌↔◌, inl, inr, refl, ap, ◌∙◌, Option, none, some, ◌==◌,
  ◌!=◌, if◌then◌else◌, Bool-cases, string_eq, nat_eq, option_eq, pair_eq, same_refl, same_of,
  differs_iff,
}
use ariava.Store.State.{Timestamp, SessionStatus, idle, CanonicalSession, status_eq}
use ariava.Adapter.{SessionFields, RegisterInput}
use ariava.Adapter.Codec.{
  or_else, Context, producer_context, canonical_context, semantic_fingerprint,
}
use ariava.Adapter.Registration.{
  Evidence, reduce_registration, HeartbeatInput, beaten_fields, reduce_heartbeat, registered_fields,
  inherited_last_event_id, requested_context, is_semantic_change, is_context_change, since,
  Cancellation,
}

inherited-live :
    (previous : SessionFields) (persisted : Option CanonicalSession) (context : Context)
    (status : SessionStatus)
    → producer_context previous ≡ context
    → previous.status ≡ status
    → inherited_last_event_id (some previous) persisted context status ≡ previous.last_event_id
unfolding inherited_last_event_id
inherited-live previous persisted context status same_context same_status =
    rw (same_context, same_status, same_refl context, same_refl status) refl

semantic_change-same :
    (a b : SessionFields)
    → semantic_fingerprint a ≡ semantic_fingerprint b
    → is_semantic_change (some a) b ≡ false
unfolding is_semantic_change
semantic_change-same a b same = rw (same, same_refl (semantic_fingerprint b)) refl

context_change-same :
    (a b : SessionFields)
    → producer_context a ≡ producer_context b
    → is_context_change (some a) b ≡ false
unfolding is_context_change
context_change-same a b same = rw (same, same_refl (producer_context b)) refl

-- A live session that came of the same input, whatever its times are.
module _ (previous : Option SessionFields) (persisted : Option CanonicalSession)
    (input : RegisterInput) (host_id : String) (now updated : Timestamp) where
  abbrev live : SessionFields
  live = record (registered_fields previous persisted input host_id now) {
    semantic_updated_at = updated;
  }

  fields-again :
      (other : Option CanonicalSession) (later : Timestamp)
      → registered_fields (some live) other input host_id later
        ≡ record live { last_heartbeat_at = later }
  unfolding registered_fields producer_context
  fields-again other later =
      ap (λ e. record live { last_heartbeat_at = later; last_event_id = e })
        (inherited-live live other (requested_context input) live.status refl refl)

  reduce-again :
      (other : Option CanonicalSession) (cancellation : Option Cancellation) (later : Timestamp)
      → let again =
          reduce_registration
            (record {
              previous_live = some live;
              persisted_session = other;
              terminal_cancellation = cancellation;
            })
            input
            host_id
            later in
        (again.semantic_changed ≡ false)
        × (again.context_changed ≡ false)
        × (again.next_session ≡ record live { last_heartbeat_at = later })
  unfolding reduce_registration semantic_fingerprint producer_context
  reduce-again other cancellation later =
      rw
        (
          fields-again other later,
          semantic_change-same live (record live { last_heartbeat_at = later }) refl,
          context_change-same live (record live { last_heartbeat_at = later }) refl,
        )
        (refl, refl, refl)

-- The session that a registration leaves.
abbrev pub renewed : Evidence → RegisterInput → String → Timestamp → SessionFields
renewed evidence input host_id now = (reduce_registration evidence input host_id now).next_session

-- Registering a live session again with the same input, at any later time and whatever is persisted
-- by then, is no semantic change and no change of context, and changes the session's heartbeat
-- only: the times of its registration and of its last semantic change stay.
pub register-again :
    (evidence : Evidence) (other : Option CanonicalSession) (cancellation : Option Cancellation)
    (input : RegisterInput) (host_id : String) (now later : Timestamp)
    → let first = renewed evidence input host_id now in
      let again =
        reduce_registration
          (record {
            previous_live = some first;
            persisted_session = other;
            terminal_cancellation = cancellation;
          })
          input
          host_id
          later in
      (again.semantic_changed ≡ false)
      × (again.context_changed ≡ false)
      × (again.next_session ≡ record first { last_heartbeat_at = later })
unfolding reduce_registration registered_fields
register-again evidence other cancellation input host_id now later = elim (Bool-cases changed) [
  | inl h ↦ rw h (reduce-again previous persisted input host_id now now other cancellation later)
  | inr h ↦
      rw h (reduce-again previous persisted input host_id now unchanged_at other cancellation later)
]
  where
    previous : Option SessionFields
    previous = evidence.previous_live

    persisted : Option CanonicalSession
    persisted = evidence.persisted_session

    changed : Bool
    changed = is_semantic_change previous (registered_fields previous persisted input host_id now)

    unchanged_at : Timestamp
    unchanged_at = since previous (λ s. s.semantic_updated_at) now

-- Where a registered session has its last event from.
pub data Inherited (previous : Option SessionFields) (persisted : Option CanonicalSession)
    (input : RegisterInput) (event_id : String) : Type 0 where
  of_live :
      (s : SessionFields)
      → previous ≡ some s
      → producer_context s ≡ requested_context input
      → s.status ≡ or_else input.status idle
      → s.last_event_id ≡ some event_id
      → Inherited previous persisted input event_id
  of_persisted :
      (s : CanonicalSession)
      → previous ≡ none
      → persisted ≡ some s
      → canonical_context s ≡ requested_context input
      → s.status ≡ or_else input.status idle
      → s.last_event_id ≡ some event_id
      → Inherited previous persisted input event_id

both-hold :
    {A : Type 0} (a b : Bool) (value : Option A) (x : A)
    → (if a && b then value else none) ≡ some x
    → (a ≡ true) × (b ≡ true) × (value ≡ some x)
both-hold true true value x h = (refl, refl, h)
both-hold true false value x h = cc
both-hold false b value x h = cc

inherited_lem :
    (previous : Option SessionFields) (persisted : Option CanonicalSession) (input : RegisterInput)
    (event_id : String)
    → inherited_last_event_id previous persisted
        (requested_context input)
        (or_else input.status idle)
      ≡ some event_id
    → Inherited previous persisted input event_id
unfolding inherited_last_event_id
inherited_lem (some s) persisted input event_id h =
    let (context, status, has) =
      both-hold (producer_context s == requested_context input)
        (s.status == or_else input.status idle) s.last_event_id event_id h in
    of_live s refl (same_of _ _ context) (same_of _ _ status) has
inherited_lem none (some s) input event_id h =
    let (context, status, has) =
      both-hold (canonical_context s == requested_context input)
        (s.status == or_else input.status idle) s.last_event_id event_id h in
    of_persisted s refl refl (same_of _ _ context) (same_of _ _ status) has
inherited_lem none none input event_id h = cc

-- A registration that leaves a session with a last event took it over: from the live session or,
-- where none is live, from the persisted one, and only from a session with the same status, project,
-- directory and harness as the registration asks for.
pub renewed-Inherited :
    (evidence : Evidence) (input : RegisterInput) (host_id : String) (now : Timestamp)
    (event_id : String)
    → (renewed evidence input host_id now).last_event_id ≡ some event_id
    → Inherited evidence.previous_live evidence.persisted_session input event_id
unfolding reduce_registration registered_fields
renewed-Inherited evidence input host_id now event_id h = elim (Bool-cases changed) [
  | inl is_off ↦ inherited_lem _ _ input event_id (subst (λ b. if_next b ≡ some event_id) is_off h)
  | inr is_on ↦ inherited_lem _ _ input event_id (subst (λ b. if_next b ≡ some event_id) is_on h)
]
  where
    next : SessionFields
    next = registered_fields evidence.previous_live evidence.persisted_session input host_id now

    changed : Bool
    changed = is_semantic_change evidence.previous_live next

    if_next : Bool → Option String
    if_next b = (if b then record next { semantic_updated_at = now } else next).last_event_id

same_rest :
    (n m : String) (rest : String × String)
    → (◌!=◌ {T = Context} (n, rest) (m, rest) ≡ true) ↔ (n ≢ m)
same_rest n m rest = (
  λ h e. (differs_iff {T = Context} (n, rest) (m, rest)).0 h (ap (λ x. (x, rest)) e),
  λ other. (differs_iff {T = Context} (n, rest) (m, rest)).1 (λ e. other (ap (λ p. p.0) e)),
)

new_is : (name new : String) → ◌≡◌ {A = Option String} (some name) (some new) → new ≡ name
new_is name new h = cc

patched_context :
    (name : Option String) (old : String) (rest : String × String)
    → (◌!=◌ {T = Context} (or_else name old, rest) (old, rest) ≡ true)
      ↔ ((new : String) × (name ≡ some new) × (new ≢ old))
patched_context none old rest =
    (λ h. elim ((same_rest old old rest).0 h refl) [ ], λ (new, h, other). cc)
patched_context (some name) old rest = (
  λ h. (name, refl, (same_rest name old rest).0 h),
  λ (new, h, other). (same_rest name old rest).1 (λ e. other (new_is name new h ∙ e)),
)

-- A heartbeat changes the producer's context exactly when it names another project.
pub heartbeat-context :
    (session : SessionFields) (input : HeartbeatInput) (now : Timestamp)
    → ((reduce_heartbeat session input now).context_changed ≡ true)
      ↔ ((name : String) × (input.project_name ≡ some name) × (name ≢ session.project_name))
unfolding reduce_heartbeat producer_context beaten_fields
heartbeat-context session input now =
    patched_context input.project_name session.project_name
      (session.cwd, or_else session.harness_provider session.provider)

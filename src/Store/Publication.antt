-- ===== src/Store/Publication.antt =====
-- Revisions of the current-sessions publication:
-- apps/bridge/src/state-store/current-sessions-transitions.ts, and
-- `assertCurrentPublicationRelationships` of state-codec.ts.
pub mod Cursors
use ariava.Prelude.{
  ℕ, ◌+◌, max, String, Bool, true, false, not, ◌&&◌, ◌||◌, Option, none, some, List, [], ◌==◌, ◌!=◌,
  ltb, leb, if◌then◌else◌, Result, ok, throw, string_eq, nat_eq, option_eq,
}
use ariava.Store.State.{
  Timestamp, SessionsSnapshot, BridgeState, StateTransition, unchanged, replaced, StoreError,
  recipient_set_not_committed, recipient_set_rollback,
}

pub record PublicationParameters : Type 0 where
  pub host_id : String
  pub content_digest : String
  pub recipient_set_version : ℕ
  pub observed_at : Timestamp
  pub minimum_revision : ℕ

-- `ReplaceE2ECurrentSessionsRequestV1`, before its sessions are filled in.
pub record PublicationRequest : Type 0 where
  pub host_id : String
  pub revision : ℕ
  pub observed_at : Timestamp
  pub recipient_set_version : ℕ

pub record Publication : Type 0 where
  pub request : PublicationRequest
  pub content_digest : String

abbrev pub with_snapshot : BridgeState → SessionsSnapshot → BridgeState
with_snapshot s snapshot = record s { current_sessions_snapshot = snapshot }

abbrev pub is_published : SessionsSnapshot → PublicationParameters → Bool
is_published current p =
    current.last_accepted_content_digest == some p.content_digest
    && current.last_accepted_recipient_set_version == some p.recipient_set_version
    && leb p.minimum_revision current.last_accepted_revision

abbrev pub next_revision : SessionsSnapshot → PublicationParameters → ℕ
next_revision current p =
    max (max (current.last_allocated_revision + 1) (current.last_accepted_revision + 1))
      p.minimum_revision

unfoldable pub create_publication :
    BridgeState → PublicationParameters → StateTransition (Option Publication)
create_publication state p =
    let current = state.current_sessions_snapshot in
    if is_published current p then record { state = unchanged; result = none } else record {
      state = replaced (
          with_snapshot state
            (record current { last_allocated_revision = next_revision current p }));
      result = some (record {
        request = record {
          host_id = p.host_id;
          revision = next_revision current p;
          observed_at = p.observed_at;
          recipient_set_version = p.recipient_set_version;
        };
        content_digest = p.content_digest;
      });
    }

pub accept_publication :
    BridgeState → PublicationRequest → String → String → Result StoreError (StateTransition Bool)
accept_publication state request digest content_digest =
    let current = state.current_sessions_snapshot in
    if state.recipient_set_version != some request.recipient_set_version
    then throw recipient_set_not_committed
    else if ltb request.revision current.last_accepted_revision
    then ok (record { state = unchanged; result = false })
    else ok (record {
      state = replaced (
          with_snapshot state (record {
            last_allocated_revision = max current.last_allocated_revision request.revision;
            last_accepted_revision = max current.last_accepted_revision request.revision;
            last_accepted_digest = some digest;
            last_accepted_content_digest = some content_digest;
            last_accepted_recipient_set_version = some request.recipient_set_version;
          }));
      result = true;
    })

pub note_revision_lower_bound : BridgeState → ℕ → StateTransition (Unit {0})
note_revision_lower_bound state revision =
    let current = state.current_sessions_snapshot in
    if max current.last_allocated_revision revision == current.last_allocated_revision
    then record { state = unchanged; result = tt }
    else record {
      state = replaced (
          with_snapshot state (record current {
            last_allocated_revision = max current.last_allocated_revision revision;
          }));
      result = tt;
    }

abbrev is_below : ℕ → Option ℕ → Bool
is_below version none = false
is_below version (some current) = ltb version current

-- `Number.isSafeInteger` of a natural number.
abbrev pub is_safe_integer : ℕ → Bool
is_safe_integer n = leb n 9007199254740991

pub set_recipient_set_version : BridgeState → ℕ → Result StoreError (StateTransition (Unit {0}))
set_recipient_set_version state version =
    if not (is_safe_integer version)
      || ltb version 1
      || is_below version state.recipient_set_version
    then throw recipient_set_rollback
    else ok (record {
      state = replaced (record state { recipient_set_version = some version });
      result = tt;
    })

abbrev no_accepted : SessionsSnapshot → Bool
no_accepted s =
    s.last_accepted_digest == none
    && s.last_accepted_content_digest == none
    && s.last_accepted_recipient_set_version == none

abbrev all_accepted : SessionsSnapshot → Bool
all_accepted s =
    s.last_accepted_digest != none
    && s.last_accepted_content_digest != none
    && s.last_accepted_recipient_set_version != none

abbrev is_covered : Option ℕ → Option ℕ → Bool
is_covered (some accepted) (some current) = leb accepted current
is_covered _ _ = false

-- Whether `assertCurrentPublicationRelationships` returns.
unfoldable pub is_published_well : BridgeState → Bool
is_published_well state =
    let s = state.current_sessions_snapshot in
    if s.last_accepted_revision == 0
    then no_accepted s
    else all_accepted s
      && is_covered s.last_accepted_recipient_set_version state.recipient_set_version

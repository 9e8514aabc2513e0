-- ===== src/Store/Sessions/Revisions.antt =====
-- Session revisions advance by one: `commitSessionRevisionTransition`,
-- apps/bridge/src/state-store/session-transitions.ts.
use ariava.Prelude.{
  ℕ, ◌+◌, ◌≤◌, String, ◌≡◌, ap, List, [], ◌∷◌, length, Result, ok, throw, arith, eq_iff, string_eq,
  nat_eq,
}
use ariava.Prelude.Dict.{lookup, lookup-insert}
use ariava.Store.State.{BridgeState, StateTransition, StoreError, after}
use ariava.Store.Sessions.{read_current_session_revision, commit_session_revision}

abbrev or_kept : BridgeState → Result StoreError (StateTransition (Unit {0})) → BridgeState
or_kept s (ok t) = after s t
or_kept s (throw e) = s

-- Commits of revisions, of which some may throw.
abbrev pub commit_all : BridgeState → List (String × ℕ) → BridgeState
commit_all s [] = s
commit_all s ((id, revision) ∷ later) =
    commit_all (or_kept s (commit_session_revision s id revision)) later

same_revision :
    (s : BridgeState) (i j : String)
    → i ≡ j
    → lookup s.session_revisions i ≡ lookup s.session_revisions j
same_revision s i j same = ap (lookup s.session_revisions) same

commit-advances :
    (s : BridgeState) (id : String) (revision : ℕ) (k : String)
    → (read_current_session_revision s k
        ≤ read_current_session_revision (or_kept s (commit_session_revision s id revision)) k)
      × (read_current_session_revision (or_kept s (commit_session_revision s id revision)) k
          ≤ read_current_session_revision s k + 1)
unfolding commit_session_revision read_current_session_revision
commit-advances s id revision k =
    ground
      (arith, lookup-insert s.session_revisions id revision k, eq_iff id k, same_revision s id k)

-- Through any commits a session's revision does not go back, and it advances by at most one with
-- each of them.
pub commit_all-advances :
    (s : BridgeState) (commits : List (String × ℕ)) (k : String)
    → (read_current_session_revision s k ≤ read_current_session_revision (commit_all s commits) k)
      × (read_current_session_revision (commit_all s commits) k
          ≤ read_current_session_revision s k + length commits)
commit_all-advances s [] k = ground arith
commit_all-advances s ((id, revision) ∷ later) k = ground (
  arith,
  commit-advances s id revision k,
  commit_all-advances (or_kept s (commit_session_revision s id revision)) later k,
)

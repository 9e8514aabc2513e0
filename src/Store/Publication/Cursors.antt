-- ===== src/Store/Publication/Cursors.antt =====
-- The publication's cursors only advance: apps/bridge/src/state-store/current-sessions-transitions.ts.
use ariava.Prelude.{
  ℕ, ◌≤◌, ◌<◌, String, ◌≡◌, true, some, List, [], ◌∷◌, Result, ok, throw, string_eq, nat_eq,
  option_eq, arith, All,
}
use ariava.Store.State.{SessionsSnapshot, BridgeState, StateTransition, StoreError, after}
use ariava.Store.Publication.{
  PublicationParameters, PublicationRequest, Publication, create_publication, accept_publication,
  note_revision_lower_bound, set_recipient_set_version, is_published_well,
}

-- The operations on the publication; what is accepted is a request with a revision that an
-- allocation can have given.
pub data Operation : Type 0 where
  creates : PublicationParameters → Operation
  accepts : PublicationRequest → String → String → Operation
  notes : ℕ → Operation
  sets_version : ℕ → Operation

abbrev or_kept {ℓ} :
    {A : Type ℓ} → BridgeState → Result StoreError (StateTransition A) → BridgeState
or_kept s (ok t) = after s t
or_kept s (throw e) = s

-- The state after an operation, which is the one before when it throws.
abbrev pub attempt : BridgeState → Operation → BridgeState
attempt s (creates p) = after s (create_publication s p)
attempt s (accepts request digest content) = or_kept s (accept_publication s request digest content)
attempt s (notes revision) = after s (note_revision_lower_bound s revision)
attempt s (sets_version version) = or_kept s (set_recipient_set_version s version)

abbrev pub attempt_all : BridgeState → List Operation → BridgeState
attempt_all s [] = s
attempt_all s (op ∷ ops) = attempt_all (attempt s op) ops

-- Neither cursor goes back.
abbrev pub Forward : SessionsSnapshot → SessionsSnapshot → Type 0
Forward a b =
    (a.last_allocated_revision ≤ b.last_allocated_revision)
    × (a.last_accepted_revision ≤ b.last_accepted_revision)

attempt-Forward :
    (s : BridgeState) (op : Operation)
    → Forward s.current_sessions_snapshot (attempt s op).current_sessions_snapshot
unfolding create_publication accept_publication note_revision_lower_bound set_recipient_set_version
attempt-Forward s (creates p) = ground arith
attempt-Forward s (accepts request digest content) = ground arith
attempt-Forward s (notes revision) = ground arith
attempt-Forward s (sets_version version) = ground arith

pub attempt_all-Forward :
    (s : BridgeState) (ops : List Operation)
    → Forward s.current_sessions_snapshot (attempt_all s ops).current_sessions_snapshot
attempt_all-Forward s [] = ground arith
attempt_all-Forward s (op ∷ ops) =
    ground (arith, attempt-Forward s op, attempt_all-Forward (attempt s op) ops)

created-above :
    (s : BridgeState) (p : PublicationParameters) (q : Publication)
    → (create_publication s p).result ≡ some q
    → (s.current_sessions_snapshot.last_allocated_revision < q.request.revision)
      × (s.current_sessions_snapshot.last_accepted_revision < q.request.revision)
unfolding create_publication
created-above s p q h = ground arith

created-allocated :
    (s : BridgeState) (p : PublicationParameters) (q : Publication)
    → (create_publication s p).result ≡ some q
    → (attempt s (creates p)).current_sessions_snapshot.last_allocated_revision ≡ q.request.revision
unfolding create_publication
created-allocated s p q h = ground arith

-- Two publications that are created one after the other have increasing revisions, whatever
-- operations succeed or throw between them.
pub created-increasing :
    (s : BridgeState) (p p' : PublicationParameters) (ops : List Operation) (q q' : Publication)
    → (create_publication s p).result ≡ some q
    → (create_publication (attempt_all (attempt s (creates p)) ops) p').result ≡ some q'
    → q.request.revision < q'.request.revision
created-increasing s p p' ops q q' h h' = omega (
  arith,
  created-allocated s p q h,
  attempt_all-Forward (attempt s (creates p)) ops,
  created-above (attempt_all (attempt s (creates p)) ops) p' q' h',
)

-- Requests that carry a revision above zero, as every created one does.
abbrev pub IsNumbered : Operation → Type 0
IsNumbered (accepts request digest content) = 1 ≤ request.revision
IsNumbered _ = Unit

attempt-published :
    (s : BridgeState) (op : Operation)
    → IsNumbered op
    → is_published_well s ≡ true
    → is_published_well (attempt s op) ≡ true
unfolding create_publication accept_publication note_revision_lower_bound set_recipient_set_version
    is_published_well
attempt-published s (creates p) n h = ground arith
attempt-published s (accepts request digest content) n h = ground arith
attempt-published s (notes revision) n h = ground arith
attempt-published s (sets_version version) n h = ground arith

-- The codec's relations of the publication hold after any operations from a state where they hold,
-- when each accepted request has a revision above zero.
pub attempt_all-published :
    (s : BridgeState) (ops : List Operation)
    → All IsNumbered ops
    → is_published_well s ≡ true
    → is_published_well (attempt_all s ops) ≡ true
attempt_all-published s [] n h = h
attempt_all-published s (op ∷ ops) (n, ns) h =
    attempt_all-published (attempt s op) ops ns (attempt-published s op n h)

-- ===== src/Adapter/Codec.antt =====
-- The comparisons of sessions and events: apps/bridge/src/agent-adapter/registry-codec.ts. A JSON
-- fingerprint of a session is the tuple of what it spells; the fingerprint of an event is a SHA-256
-- digest of its content, a parameter of the code that compares it.
use ariava.Prelude.{
  ℕ, String, Bool, true, ◌&&◌, Option, none, some, ◌==◌, string_eq, option_eq, Result, require,
  ◌>>◌,
}
use ariava.Store.State.{
  SessionStatus, CanonicalEvent, CanonicalSession, EventKind, done, needs_human, idle, need_human,
}
use ariava.Adapter.{SessionFields, EventInput}

-- `value ?? fallback`
abbrev pub or_else {ℓ} : {A : Type ℓ} → Option A → A → A
or_else none fallback = fallback
or_else (some value) fallback = value

-- `!value`: absent, or the empty text.
abbrev pub is_missing : Option String → Bool
is_missing none = true
is_missing (some text) = text == ""

-- What the context fingerprints spell: projectName, workingDirectory, harnessProvider.
abbrev pub Context : Type 0
Context = String × (String × String)

unfoldable pub producer_context : SessionFields → Context
producer_context s = (s.project_name, (s.cwd, or_else s.harness_provider s.provider))

unfoldable pub canonical_context : CanonicalSession → Context
canonical_context s =
    (s.project_name, (or_else s.working_directory "", or_else s.harness_provider s.provider))

unfoldable pub normalized_owner : String → Option String → String × String
normalized_owner provider harness_provider = (provider, or_else harness_provider provider)

unfoldable pub same_owner : String × String → String × String → Bool
same_owner (p, h) (q, i) = p == q && h == i

-- What the semantic fingerprint spells.
abbrev pub Semantic : Type 0
Semantic =
    (String × (String × (String × String)))
    × ((String × (Option String × Option String))
        × ((Option String × (Option ℕ × String)) × (SessionStatus × Option String)))

unfoldable pub semantic_fingerprint : SessionFields → Semantic
semantic_fingerprint s = (
  (s.session_id, (s.provider, (s.project_name, s.cwd))),
  (
    (s.name_text, (s.opening_text, s.latest_activity_text)),
    ((s.harness_provider, (s.pid, s.host_id)), (s.status, s.last_event_id)),
  ),
)

unfoldable pub assert_context_matches : EventInput → SessionFields → Result String (Unit {0})
assert_context_matches event session =
    require (event.project_name == some session.project_name)
      "canonical Event projectName does not match the registered Session"
    >> require (event.working_directory == some session.cwd)
        "canonical Event workingDirectory does not match the registered Session"
    >> require (event.harness_provider == some (or_else session.harness_provider session.provider))
        "canonical Event harnessProvider does not match the registered Session"

-- The part of a stored event that its producer sent.
abbrev pub input_of : CanonicalEvent → EventInput
input_of e = record {
  session_id = e.session_id;
  provider = e.provider;
  kind = e.kind;
  agent_text = e.agent_text;
  human_text = e.human_text;
  project_name = e.project_name;
  working_directory = e.working_directory;
  harness_provider = e.harness_provider;
  created_at = e.created_at;
}

-- The status of a canonical event, which goes with its type.
abbrev pub event_status : EventKind → SessionStatus
event_status done = idle
event_status (needs_human reason error) = need_human

-- `{ ...input, eventId, hostId }`
abbrev pub event_of : EventInput → (event_id host_id : String) → CanonicalEvent
event_of input event_id host_id = record {
  event_id = event_id;
  host_id = host_id;
  session_id = input.session_id;
  provider = input.provider;
  kind = input.kind;
  agent_text = input.agent_text;
  human_text = input.human_text;
  project_name = input.project_name;
  working_directory = input.working_directory;
  harness_provider = input.harness_provider;
  created_at = input.created_at;
}

-- ===== src/Lib.antt =====
-- The Bridge of ariava (apps/bridge): the daemon that runs beside coding agents on a Host, keeps
-- their sessions, events and commands, and relays them, encrypted, to watches. What is modelled:
--
-- Reset: the Host-domain reset, apps/bridge/src/cli/operations/host-domain-reset*.ts. A journal file
-- records the phase of the reset (Reset.Journal); its codec checks it (Reset.Schema, `parse_journal`);
-- the machine names the next action (Reset.Machine, `next_host_reset_action`); an executor performs
-- it and asks for a transition, which the policy applies and admits (Reset.Policy, with the table of
-- edges in Reset.Policy.Edges); the store writes it, and the loop goes on (Reset.Coordinator).
--
-- Store: the transitions of the persisted state, apps/bridge/src/state-store. The state is
-- Store.State (types.ts and packages/protocol/src). A transition takes the state and returns the next
-- one, or `unchanged` where the code returns the same object. Store.Commit is state-transitions.ts
-- over the commit of apps/bridge/src/state-store.ts,
-- Store.Sessions and Store.Handles are session-transitions.ts, Store.Events is event-transitions.ts,
-- Store.Publication is current-sessions-transitions.ts, Store.Health is host-health-transitions.ts,
-- Store.Commands and Store.Retention are command-transitions.ts, with the comparisons of commands in
-- Store.Comparison and the codec's checks of an execution in Store.Execution (state-codec.ts).
--
-- Daemon: decisions around them. Daemon.Snapshots is the policy on failed snapshot publications
-- (apps/bridge/src/daemon/snapshot-policy.ts), Daemon.Uploads the decisions on encrypted uploads
-- (apps/bridge/src/e2e/upload-decisions.ts).
--
-- Adapter: the agent adapter, apps/bridge/src/agent-adapter, with which the drivers of agents register
-- their sessions, push their events and poll for commands. Adapter.Registration is
-- session-transitions.ts, Adapter.Plan is terminal-event-plan.ts, Adapter.Codec the comparisons of
-- registry-codec.ts, and Adapter.Registry the class of registry.ts: its maps and what it has done to
-- callbacks and timers are one record, its methods are functions that change it and return or throw,
-- and Adapter.Registry.Calls has the sequences of its calls. The state store that it writes to is an
-- interface, of which any write may throw. Clocks and what is drawn at random are arguments.
--
-- Spool: the local spool of encrypted payloads, the class LocalEncryptedSpool of
-- apps/bridge/src/e2e/local-spool.ts. Spool.Items has its items, the file and the checks of them,
-- Spool.Operations its methods. The file, the access check, the key store and the cipher are the
-- interfaces of Spool, and Spool.Reached says what is relied on of them: that a file is replaced
-- atomically and can be read after a write, which leaves the access check as it was, that the key store keeps its keys, and that decoding and opening undo encoding and
-- sealing.
--
-- Prelude holds what they share: tests, equality, lists, errors, maps, sorting and character classes.
--
-- How the code is read. A function keeps its name in snake case. What throws returns `throw` with the
-- error's name. A timestamp is its milliseconds: canonical texts with four-digit years compare as
-- the instants do. An object used as a map is a list of entries in insertion order. `JSON.stringify`
-- comparisons compare field by field. `localeCompare` on ids, number texts, the protocol's
-- validators, JSON parsing, SHA-256 digests and the executors of the reset are parameters; of the
-- executors only the phases that they ask for are relied on (`executor_phase`).
--
-- Fuel: only the reset's loop has it (`run`), a unit for each round; the thirteen phases bound what it
-- needs.
--
-- Not modelled: files, locks, processes, HTTP and cryptography; the agent adapter's server and its
-- validators of bodies; the transactions over state and spool; the daemon's workflows and the key
-- ring; migrations of older state files.
pub mod Adapter
pub mod Daemon
pub mod Prelude
pub mod Reset
pub mod Spool
pub mod Store

-- ===== src/Adapter/Registry/Once/Taken.antt =====
-- A command whose result is taken is gone from the registry, and no result is taken for one that is
-- gone, apps/bridge/src/agent-adapter/registry.ts.
use ariava.Prelude.{
  String, true, ◌≡◌, refl, ap, ◌∙◌, Option, none, some, string_eq, Result, ok, throw,
}
use ariava.Prelude.Dict.{lookup, insert}
use ariava.Store.State.{Timestamp, CommandResult}
use ariava.Adapter.Codec.{or_else}
use ariava.Adapter.Registry.{Registry, StateStore, Binding}
use ariava.Adapter.Registry.Action.{Action, Ran, fail, continue, ◌>>=◌}
use ariava.Adapter.Registry.Queue.{
  resolve_command, resolve_bound, accept_result, is_bound_result, clear_command_in_flight,
}
use ariava.Adapter.Registry.Slots.{if-elim}
use ariava.Adapter.Registry.Slots.Results.{cleared-queues}
use ariava.Adapter.Registry.Slots.Retries.{lookup-remove_self}
use ariava.Adapter.Registry.Once.{is_unqueued, Gone}

module _ {S : Type 0} (store : StateStore S) where
  -- A method that returned, and threw never.
  bind-result :
      {A B : Type 0} (m : Action S A) (k : A → Action S B) (r : Registry S)
      (P : Registry S → Type 0) (out : B)
      → ((a : A) → (k a (m r).registry).result ≡ ok out → P (k a (m r).registry).registry)
      → ((m >>= k) r).result ≡ ok out
      → P ((m >>= k) r).registry
  bind-result {A} {B} m k r P out next h = of_result (m r).result h
    where
      of_result :
          (result : Result String A)
          → (continue (m r).registry result k).result ≡ ok out
          → P (continue (m r).registry result k).registry
      of_result (ok a) h = next a h
      of_result (throw error) h = cc

  module _ (now : Timestamp) (command_id : String) where
    Unbound : Registry S → Type 0
    Unbound r = lookup r.command_sessions command_id ≡ none

    accepted-Unbound :
        (result : CommandResult) (binding : Binding) (r : Registry S)
        → (accept_result store now command_id result binding r).result ≡ ok tt
        → Unbound (accept_result store now command_id result binding r).registry
    unfolding accept_result Unbound
    accepted-Unbound result binding r h =
        bind-result (clear_command_in_flight store now binding.session_id command_id) _ _ Unbound tt
          (λ done h. lookup-remove_self _ command_id) h

    resolved-Unbound :
        (i : String) (result : CommandResult) (binding : Option Binding) (r : Registry S)
        → (resolve_bound store now command_id i result binding r).result ≡ ok tt
        → Unbound (resolve_bound store now command_id i result binding r).registry
    unfolding resolve_bound
    resolved-Unbound i result none r h = cc
    resolved-Unbound i result (some binding) r h =
        if-elim (λ (ran : Ran S (Unit {0})). ran.result ≡ ok tt → Unbound ran.registry)
          (is_bound_result command_id i result binding (lookup r.sessions i))
          (accept_result store now command_id result binding r) (fail _ r)
          (λ e h. accepted-Unbound result binding r h) (λ e h. cc) h

    resolved-queues :
        (i : String) (result : CommandResult) (binding : Option Binding) (r : Registry S)
        → (resolve_bound store now command_id i result binding r).registry.command_queues
          ≡ r.command_queues
    unfolding resolve_bound accept_result
    resolved-queues i result none r = refl
    resolved-queues i result (some binding) r =
        if-elim (λ (ran : Ran S (Unit {0})). ran.registry.command_queues ≡ r.command_queues)
          (is_bound_result command_id i result binding (lookup r.sessions i))
          (accept_result store now command_id result binding r) (fail _ r)
          (λ h.
            cleared-queues store now binding.session_id command_id (some result)
              (record r { results = insert r.results command_id result }))
          (λ h. refl)

    -- A command whose result is taken, and which stands in no queue, is gone.
    pub taken-Gone :
        (r : Registry S) (result : CommandResult) (submitted : Option String)
        → is_unqueued command_id r.command_queues ≡ true
        → (resolve_command store now command_id result submitted r).result ≡ ok tt
        → Gone command_id (resolve_command store now command_id result submitted r).registry
    unfolding resolve_command Unbound
    taken-Gone r result submitted unqueued taken =
        if-elim (λ (ran : Ran S (Unit {0})). ran.result ≡ ok tt → Gone command_id ran.registry)
          r.disposed (fail _ r) _ (λ e h. cc)
          (λ e h. (
            resolved-Unbound (or_else submitted result.session_id) result
                (lookup r.command_sessions command_id) r h,
            ap (is_unqueued command_id) (
                  resolved-queues (or_else submitted result.session_id) result
                    (lookup r.command_sessions command_id) r)
                ∙ unqueued,
          ))
          taken

    refused-unbound :
        (i : String) (result : CommandResult) (binding : Option Binding) (r : Registry S)
        → binding ≡ none
        → (resolve_bound store now command_id i result binding r).result
          ≡ throw "command result does not match its queued adapter command and registered Session"
    unfolding resolve_bound
    refused-unbound i result none r h = refl
    refused-unbound i result (some binding) r h = cc

    pub refused-Gone :
        (r : Registry S) (result : CommandResult) (submitted : Option String)
        → Gone command_id r
        → (resolve_command store now command_id result submitted r).result
          ≡ throw "command result does not match its queued adapter command and registered Session"
    unfolding resolve_command
    refused-Gone r result submitted gone =
        if-elim
          (λ (ran : Ran S (Unit {0})).
            ran.result
            ≡ throw
                "command result does not match its queued adapter command and registered Session")
          r.disposed (fail _ r) _ (λ h. refl)
          (λ h.
            refused-unbound (or_else submitted result.session_id) result
              (lookup r.command_sessions command_id) r gone.0)

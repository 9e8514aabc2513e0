-- ===== src/Store/Retention.antt =====
-- How long executions are kept: the retention, the pruning and the pins of
-- apps/bridge/src/state-store/command-transitions.ts. `decimal` is the platform's text of a number.
pub mod Pruning
pub mod Pins
use Prim.Native.String.{◌++◌ as append}
use ariava.Prelude.{
  ℕ, zero, suc, ◌+◌, String, ◌≡◌, refl, Bool, true, false, not, ◌&&◌, ◌||◌, Option, none, some,
  List, [], ◌∷◌, ◌==◌, ◌!=◌, Eq, eq_by_index, ltb, leb, if◌then◌else◌, Result, ok, throw, ◌>>=◌,
  ◌>>◌, nat_eq,
}
use ariava.Prelude.Dict.{Dict, lookup, insert, remove, values}
use ariava.Store.Comparison.{same_pin, execution_state_eq, outbox_state_eq}
use ariava.Store.Commands.{with_executions}
use ariava.Store.State.{
  Timestamp, CommandResult, PinReference, OutboxState, pending, undeliverable, ReceiptOutbox,
  claimed, dispatch_started, outcome_unknown, terminal_receipt_blocked, terminal, CommandExecution,
  BridgeState, StateTransition, unchanged, replaced, StoreError, invalid_execution,
  invalid_timestamp, invalid_binding,
}

abbrev pub command_receipt_retention_ms : ℕ
command_receipt_retention_ms = 2592000000

-- `SIGNED_REQUEST_LIMITS.clockSkewMs`
abbrev pub clock_skew_ms : ℕ
clock_skew_ms = 300000

-- The last instant that a `Date` can have; `toISOString` throws beyond it.
abbrev pub max_instant : ℕ
max_instant = 8640000000000000

pub add_milliseconds : Timestamp → ℕ → Result StoreError Timestamp
add_milliseconds timestamp duration =
    if ltb max_instant (timestamp + duration)
    then throw invalid_timestamp
    else ok (timestamp + duration)

abbrev pub is_unfinished : CommandExecution → Bool
is_unfinished e = e.state == claimed || e.state == dispatch_started || e.state == outcome_unknown

abbrev receipt_retained : Option CommandResult → Result StoreError Timestamp
receipt_retained none = throw invalid_execution
receipt_retained (some result) = add_milliseconds result.updated_at command_receipt_retention_ms

pub retained_through : CommandExecution → Result StoreError Timestamp
unfolding add_milliseconds
retained_through e =
    if is_unfinished e
    then add_milliseconds e.expires_at clock_skew_ms
    else receipt_retained e.terminal_result

-- The entries that a pruning at `now` removes.
pub eligible : Timestamp → Dict CommandExecution → Result StoreError (Dict CommandExecution)
unfolding retained_through
eligible now [] = ok []
eligible now ((id, e) ∷ d) = do
  through ← retained_through e
  rest ← eligible now d
  ok (if ltb through now then (id, e) ∷ rest else rest)

pub remove_all : Dict CommandExecution → Dict CommandExecution → Dict CommandExecution
remove_all [] d = d
remove_all ((id, e) ∷ removed) d = remove_all removed (remove d id)

abbrev prune_with : BridgeState → Dict CommandExecution → StateTransition (List CommandExecution)
prune_with state [] = record { state = unchanged; result = [] }
prune_with state (entry ∷ entries) = record {
  state = replaced (with_executions state (remove_all (entry ∷ entries) state.command_executions));
  result = values (entry ∷ entries);
}

unfoldable pub prune_eligible :
    BridgeState → Timestamp → Result StoreError (StateTransition (List CommandExecution))
unfolding eligible remove_all
prune_eligible state now = do
  entries ← eligible now state.command_executions
  ok (prune_with state entries)

-- `validateCommandExecutionPinsState`
abbrev is_available : Bool → CommandExecution → Option PinReference → Bool
is_available allow_terminal e none =
    allow_terminal && (e.state == terminal_receipt_blocked || e.state == terminal)
is_available allow_terminal e (some actual) = same_pin actual e.pin_reference

pub validate_pins :
    (String → ℕ → ℕ → Option PinReference)
    → Bool
    → List CommandExecution
    → Result StoreError (Unit {0})
validate_pins resolve allow_terminal [] = ok tt
validate_pins resolve allow_terminal (e ∷ es) =
    let pin = e.pin_reference in
    let rest = validate_pins resolve allow_terminal es in
    if is_available allow_terminal e (resolve pin.link_id pin.link_generation pin.epoch)
    then rest
    else throw invalid_binding

pub data Category : Type 0 where
  execution_retained terminal_receipt_retained pending_outbox_retained : Category
  undeliverable_outbox_retained : Category

abbrev category_index : Category → ℕ
category_index execution_retained = 0
category_index terminal_receipt_retained = 1
category_index pending_outbox_retained = 2
category_index undeliverable_outbox_retained = 3

abbrev has_outbox : OutboxState → Option ReceiptOutbox → Bool
has_outbox state none = false
has_outbox state (some outbox) = outbox.state == state

pub retention_category : CommandExecution → Category
retention_category e =
    if is_unfinished e
    then execution_retained
    else if e.state == terminal_receipt_blocked
    then terminal_receipt_retained
    else if has_outbox pending e.receipt_outbox
    then pending_outbox_retained
    else if has_outbox undeliverable e.receipt_outbox
    then undeliverable_outbox_retained
    else terminal_receipt_retained

abbrev pub later_timestamp : Option Timestamp → Timestamp → Timestamp
later_timestamp none right = right
later_timestamp (some left) right = if ltb right left then left else right

-- `PinRetentionReferences`: the retained pins of each category.
abbrev pub References : Type 0
References = Category → Dict Timestamp

abbrev is_category : Category → Category → Bool
is_category a b = category_index a == category_index b

module _ (decimal : ℕ → String) where
  abbrev pub pin_key : PinReference → String
  pin_key p =
      append p.link_id
        (append ":" (append (decimal p.link_generation) (append ":" (decimal p.epoch))))

  abbrev pub refer : References → Category → String → Timestamp → References
  refer references category key through c =
      if is_category category c
      then insert (references c) key (later_timestamp (lookup (references c) key) through)
      else references c

  unfoldable pub pin_references : References → List CommandExecution → Result StoreError References
  unfolding retention_category retained_through
  pin_references references [] = ok references
  pin_references references (e ∷ es) = do
    through ← retained_through e
    pin_references (refer references (retention_category e) (pin_key e.pin_reference) through) es

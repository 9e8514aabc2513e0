-- ===== src/Store/Commit.antt =====
-- The commit of a transition: `commitState`, apps/bridge/src/state-store/state-transitions.ts, over
-- the shell that calls it, `commit` of apps/bridge/src/state-store.ts. What the access check and the
-- writer of the file do comes in as a value.
use ariava.Prelude.{
  ◌≡◌, refl, Bool, true, false, if◌then◌else◌, ◌⊎◌, inl, inr, Option, some, Result, ok, throw,
}
use ariava.Store.State.{BridgeState, StateTransition, Next, unchanged, replaced, StoreError, after}

-- What a commit throws: the transition's error, that of the access check, or the writer's.
pub data CommitError : Type 0 where
  transition_threw : StoreError → CommitError
  access_refused write_failed : CommitError

-- What the writer of the file does: it throws before it has renamed the new file to its place, or
-- after that, when the directory cannot be synchronised, or it returns.
pub data Write : Type 0 where
  installed failed_before failed_after : Write

-- The store: its state in memory, whether it has a file, and what that holds.
pub record Shell : Type 0 where
  pub memory : BridgeState
  pub has_path : Bool
  pub disk : Option BridgeState

pub record Committed {ℓ} (A : Type ℓ) : Type ℓ where
  pub shell : Shell
  pub result : Result CommitError A

-- `this.writeState(this.filePath, nextState)`
unfoldable pub write_state : Write → BridgeState → Shell → Committed (Unit {0})
write_state installed next shell = record {
  shell = record shell { disk = some next };
  result = ok tt;
}
write_state failed_before next shell = record { shell = shell; result = throw write_failed }
write_state failed_after next shell = record {
  shell = record shell { disk = some next };
  result = throw write_failed;
}

-- `this.state = nextState`, unless the write has thrown.
abbrev swapped : BridgeState → Committed (Unit {0}) → Committed (Unit {0})
swapped next ran = elim (ran.result) [
  | ok done ↦ record { shell = record (ran.shell) { memory = next }; result = ok tt }
  | throw e ↦ record { shell = ran.shell; result = throw e }
]

-- `commit`
unfoldable pub commit : Bool → Write → BridgeState → Shell → Committed (Unit {0})
unfolding write_state
commit has_access write next shell =
    if has_access
    then swapped next (
        if shell.has_path
        then write_state write next shell
        else record { shell = shell; result = ok tt })
    else record { shell = shell; result = throw access_refused }

abbrev returning {ℓ} : {A : Type ℓ} → A → Committed (Unit {0}) → Committed A
returning a ran = elim (ran.result) [
  | ok done ↦ record { shell = ran.shell; result = ok a }
  | throw e ↦ record { shell = ran.shell; result = throw e }
]

unfoldable pub commit_next {ℓ} : {A : Type ℓ} → Bool → Write → Shell → Next → A → Committed A
unfolding commit
commit_next has_access write shell unchanged result = record { shell = shell; result = ok result }
commit_next has_access write shell (replaced next) result =
    returning result (commit has_access write next shell)

-- The rest of `commitState`, once the transition has returned or thrown.
abbrev commit_outcome {ℓ} :
    {A : Type ℓ} → Bool → Write → Shell → Result StoreError (StateTransition A) → Committed A
commit_outcome has_access write shell (throw e) = record {
  shell = shell;
  result = throw (transition_threw e);
}
commit_outcome has_access write shell (ok t) = commit_next has_access write shell t.state t.result

unfoldable pub commit_state {ℓ} :
    {A : Type ℓ}
    → Bool
    → Write
    → Shell
    → (BridgeState → Result StoreError (StateTransition A))
    → Committed A
unfolding commit_next
commit_state has_access write shell transition =
    commit_outcome has_access write shell (transition shell.memory)

-- A store without a file, or one whose file holds what is in memory.
abbrev pub InStep : Shell → Type 0
InStep shell = (shell.has_path ≡ false) ⊎ (shell.disk ≡ some shell.memory)

-- How a commit of a transition ends: it returns, or it throws.
abbrev pub Ends {ℓ} :
    {A : Type ℓ} → Shell → Result StoreError (StateTransition A) → Committed A → Type ℓ
Ends {A = A} shell transition ran =
    ((t : StateTransition A) × (transition ≡ ok t)
      × (ran.result ≡ ok t.result)
      × (ran.shell.memory ≡ after shell.memory t)
      × InStep ran.shell)
    ⊎ ((e : CommitError) × (ran.result ≡ throw e)
        × (ran.shell.memory ≡ shell.memory)
        × ((ran.shell ≡ shell)
            ⊎ ((t : StateTransition A) × (transition ≡ ok t)
                × (e ≡ write_failed)
                × (ran.shell.disk ≡ some (after shell.memory t)))))

next-Ends {ℓ} :
    {A : Type ℓ} (has_access : Bool) (write : Write) (memory : BridgeState) (has_path : Bool)
    (disk : Option BridgeState) (n : Next) (a : A)
    → let shell : Shell = record { memory = memory; has_path = has_path; disk = disk } in
      let t : StateTransition A = record { state = n; result = a } in
      InStep shell → Ends shell (ok t) (commit_next has_access write shell n a)
unfolding commit_next commit write_state
next-Ends access write memory path disk unchanged a step = inl (_, refl, refl, refl, step)
next-Ends false write memory path disk (replaced next) a step = inr (_, refl, refl, inl refl)
next-Ends true write memory false disk (replaced next) a step = inl (_, refl, refl, refl, inl refl)
next-Ends true installed memory true disk (replaced next) a step =
    inl (_, refl, refl, refl, inr refl)
next-Ends true failed_before memory true disk (replaced next) a step = inr (_, refl, refl, inl refl)
next-Ends true failed_after memory true disk (replaced next) a step =
    inr (_, refl, refl, inr (_, refl, refl, refl))

-- A commit on a store whose file holds what is in memory. If it returns, so has the transition: its
-- result is returned, its state is in memory, and in the file if there is one. If it throws, memory is
-- as before, and the file is as before too, unless the writer threw after it had put the new file in
-- place: then the file holds the state that the transition made.
pub commit_state-Ends {ℓ} :
    {A : Type ℓ} (has_access : Bool) (write : Write) (shell : Shell)
    (transition : BridgeState → Result StoreError (StateTransition A))
    → InStep shell
    → Ends shell (transition shell.memory) (commit_state has_access write shell transition)
unfolding commit_state
commit_state-Ends {A = A} has_access write shell transition step =
    of_result (transition shell.memory)
  where
    of_result :
        (made : Result StoreError (StateTransition A))
        → Ends shell made (commit_outcome has_access write shell made)
    of_result (throw e) = inr (_, refl, refl, inl refl)
    of_result (ok t) =
        next-Ends has_access write shell.memory shell.has_path shell.disk t.state t.result step

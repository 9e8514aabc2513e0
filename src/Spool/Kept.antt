-- ===== src/Spool/Kept.antt =====
-- Every method keeps the spool in memory and its file in step: apps/bridge/src/e2e/local-spool.ts.
use ariava.Prelude.{
  ℕ, ◌-◌, String, Bool, true, false, not, ◌≡◌, inr, Option, none, some, List, [], ◌∷◌, ◌++◌, length,
  ◌==◌, string_eq, nat_eq, option_eq, find, any, keep_if, All,
}
use ariava.Spool.{Item, SpoolInput, stored, Environment, Cipher, Settings, Spool}
use ariava.Spool.Method.{Method, Ran, pure, raise, fail, continue, ◌>>◌, modify}
use ariava.Spool.Items.{valid_item, sealed, target, add_all, readable, has_id, conflict_error}
use ariava.Spool.Operations.{
  append_item, enqueue_over, enqueue, open_stored, open_item, put_items, replace, drop_unreadable,
  recover_unreadable, assert_access,
}
use ariava.Spool.Reached.{IsAtomic, IsSound, IsWellFormed}
use ariava.Spool.Reloads.{if-cases, AllValid, InStep}
use ariava.Spool.Writes.{persist-cases}
use ariava.Spool.Steps.{
  all-append, all-keep_if, sealed-valid, add_all-valid, readable-valid, bind-Kept, moved, key-bind,
  persist-Kept,
}

module _ {E Key : Type 0} (environment : Environment E Key) (cipher : Cipher Key)
    (settings : Settings) (atomic : IsAtomic environment) (sound : IsSound cipher) where
  append-Kept :
      (item : Item) (s : Spool E)
      → InStep environment cipher settings s
      → valid_item cipher settings item ≡ true
      → InStep environment cipher settings (append_item environment cipher settings item s).spool
  unfolding append_item
  append-Kept item s in_step valid =
      persist-cases environment cipher settings atomic
        (λ ran. InStep environment cipher settings (
          (λ (t : Ran E Item). t.spool)
            (continue ran.spool ran.result (λ done.
              modify (λ s. record s { items = s.items ++ (item ∷ []); has_persisted_items = true })
              >> pure item))))
        (s.items ++ (item ∷ [])) s grown in_step
        (λ e error same. moved environment cipher settings s e in_step same)
        (λ e key_id has reads. record { valid = grown; on_disk = inr (key_id, has, reads) })
    where
      grown : AllValid cipher settings (s.items ++ (item ∷ []))
      grown = all-append (valid_item cipher settings) s.items item in_step.valid valid

  enqueue_over-Kept :
      (input : SpoolInput) (existing : Option Item) (s : Spool E)
      → IsWellFormed input
      → InStep environment cipher settings s
      → InStep environment cipher settings
          (enqueue_over environment cipher settings input existing s).spool
  unfolding enqueue_over
  enqueue_over-Kept input none s well in_step =
      key-bind environment cipher settings atomic
        (λ key. append_item environment cipher settings (sealed cipher settings key input)) s
        in_step
        (λ key t same kept.
          append-Kept (sealed cipher settings key input) t kept
            (sealed-valid cipher settings sound key input well))
  enqueue_over-Kept input (some existing) s well in_step =
      if-cases (λ (m : Method E Item). InStep environment cipher settings (m s).spool) _
        (fail conflict_error) (pure existing) (λ h. in_step) (λ h. in_step)

  pub enqueue-Kept :
      (input : SpoolInput) (s : Spool E)
      → IsWellFormed input
      → InStep environment cipher settings s
      → InStep environment cipher settings (enqueue environment cipher settings input s).spool
  unfolding enqueue assert_access
  enqueue-Kept input s well in_step =
      bind-Kept environment cipher settings (assert_access environment cipher settings)
        (λ done s.
          enqueue_over environment cipher settings input (find (has_id input.spool_item_id) s.items)
            s)
        s in_step
        (λ done h.
          enqueue_over-Kept input (find (has_id input.spool_item_id) s.items) s well in_step)

  put-InStep :
      (items : List Item) (t : Spool E) (key_id : String)
      → AllValid cipher settings items
      → t.key_id ≡ some key_id
      → environment.read_file t.environment ≡ stored (target settings key_id items)
      → InStep environment cipher settings (put_items environment cipher settings items t)
  unfolding put_items
  put-InStep items t key_id valid has reads = record {
    valid = valid;
    on_disk = inr (key_id, has, reads);
  }

  pub replace-Kept :
      (remove_ids : List String) (additions : List SpoolInput) (s : Spool E)
      → All IsWellFormed additions
      → InStep environment cipher settings s
      → InStep environment cipher settings
          (replace environment cipher settings remove_ids additions s).spool
  unfolding replace assert_access
  replace-Kept remove_ids additions s well in_step =
      bind-Kept environment cipher settings (assert_access environment cipher settings) _ s in_step
        λ done h. key-bind environment cipher settings atomic _ s in_step λ key t same kept.
          bind-Kept environment cipher settings (raise (add_all cipher settings key additions rest))
            _ t kept
            λ next e.
              let valid =
                add_all-valid cipher settings sound key additions rest next well
                  (all-keep_if (valid_item cipher settings) _ s.items in_step.valid) e in
              persist-Kept environment cipher settings atomic _ next t valid kept
                (λ u key_id has reads. put-InStep next u key_id valid has reads)
    where
      rest : List Item
      rest = keep_if (λ item. not (any (λ i. i == item.spool_item_id) remove_ids)) s.items

  pub recover-Kept :
      (s : Spool E)
      → InStep environment cipher settings s
      → InStep environment cipher settings (recover_unreadable environment cipher settings s).spool
  unfolding recover_unreadable assert_access drop_unreadable
  recover-Kept s in_step =
      bind-Kept environment cipher settings (assert_access environment cipher settings) _ s in_step
        λ done h. key-bind environment cipher settings atomic _ s in_step λ key t same kept.
          bind-Kept environment cipher settings (raise (readable cipher settings key t.items)) _ t
            kept
            λ found e.
              let valid = readable-valid cipher settings sound key t.items found kept.valid e in
              if-cases (λ (ran : Ran E ℕ). InStep environment cipher settings ran.spool)
                (length t.items - length found == 0) _ _ (λ none_dropped. kept)
                (λ some_dropped.
                  persist-Kept environment cipher settings atomic _ found t valid kept
                    (λ u key_id has reads. record {
                      valid = valid;
                      on_disk = inr (key_id, has, reads);
                    }))

  pub open-Kept :
      (item : Item) (s : Spool E)
      → InStep environment cipher settings s
      → InStep environment cipher settings (open_item environment cipher settings item s).spool
  unfolding open_item assert_access open_stored
  open-Kept item s in_step =
      bind-Kept environment cipher settings (assert_access environment cipher settings) _ s in_step
        (λ done h. of_test _)
    where
      of_test :
          (test : Bool)
          → InStep environment cipher settings
              (open_stored environment cipher settings item test s).spool
      of_test true =
          key-bind environment cipher settings atomic _ s in_step (λ key t same kept. kept)
      of_test false = in_step

-- ===== src/Spool/Restart.antt =====
-- A spool that is opened again finds what the last one had: apps/bridge/src/e2e/local-spool.ts.
use mathlib.Core.Path.{subst}
use ariava.Prelude.{
  ℕ, String, true, false, ◌≡◌, refl, sym, ap, inl, inr, Option, none, some, List, [], string_eq,
  nat_eq, Result, ok, throw, arith, eq_iff, ok-injective,
}
use ariava.Spool.{
  Item, SpoolFile, SpoolError, Disk, absent, malformed, unreadable, stored, Environment, Cipher,
  Settings, Spool,
}
use ariava.Spool.Items.{is_current, of_disk, target}
use ariava.Spool.Operations.{load, construct, spool_of, if_allowed}
use ariava.Spool.Reached.{IsAtomic, IsSound, Reached, starts, enqueues, replaces, recovers, opens}
use ariava.Spool.Reloads.{if-cases, AllValid, OnDisk, InStep, load-target, load-absent}
use ariava.Spool.Kept.{enqueue-Kept, replace-Kept, recover-Kept, open-Kept}

module _ {Key : Type 0} (cipher : Cipher Key) (settings : Settings) where
  file_is :
      (version schema_version : ℕ) (epoch host_id key_id : String) (items : List Item)
      → version ≡ 2
      → schema_version ≡ settings.runtime_state_schema_version
      → epoch ≡ settings.runtime_reset_epoch
      → host_id ≡ settings.host_id
      → ◌≡◌ {A = SpoolFile}
          (record {
            version = version;
            runtime_state_schema_version = schema_version;
            runtime_reset_epoch = epoch;
            host_id = host_id;
            key_id = key_id;
            items = items;
          })
          (target settings key_id items)
  unfolding target
  file_is version schema_version epoch host_id key_id items e1 e2 e3 e4 = rw (e1, e2, e3, e4) refl

  current-parts :
      (file : SpoolFile)
      → is_current cipher settings file ≡ true
      → (file.version ≡ 2)
        × (file.runtime_state_schema_version ≡ settings.runtime_state_schema_version)
        × (file.runtime_reset_epoch ≡ settings.runtime_reset_epoch)
        × (file.host_id ≡ settings.host_id)
        × AllValid cipher settings file.items
  unfolding is_current
  current-parts file h = ground (
    arith,
    eq_iff file.runtime_reset_epoch settings.runtime_reset_epoch,
    eq_iff file.host_id settings.host_id,
  )

  disk-cases :
      (disk : Disk) (items : List Item) (known : Option String)
      → of_disk cipher settings disk ≡ ok (items, known)
      → AllValid cipher settings items × OnDisk cipher settings items known disk
  unfolding of_disk
  disk-cases absent items known h =
      subst
        (λ (loaded : List Item × Option String).
          AllValid cipher settings loaded.0 × OnDisk cipher settings loaded.0 loaded.1 absent)
        (ok-injective h) (refl, inl (refl, refl))
  disk-cases malformed items known h = cc
  disk-cases (unreadable error) items known h = cc
  disk-cases (stored file) items known h =
      if-cases
        (λ (result : Result SpoolError (List Item × Option String)).
          result ≡ ok (items, known)
          → AllValid cipher settings items × OnDisk cipher settings items known (stored file))
        (is_current cipher settings file) _ _
        (λ current e.
          let parts = current-parts file current in
          subst
            (λ (loaded : List Item × Option String).
              AllValid cipher settings loaded.0
              × OnDisk cipher settings loaded.0 loaded.1 (stored file))
            (ok-injective e)
            (
              parts.4,
              inr (
                file.key_id,
                refl,
                ap stored (
                    file_is file.version file.runtime_state_schema_version file.runtime_reset_epoch
                      file.host_id file.key_id file.items parts.0 parts.1 parts.2 parts.3),
              ),
            ))
        (λ other e. cc) h

module _ {E Key : Type 0} (environment : Environment E Key) (cipher : Cipher Key)
    (settings : Settings) where
  constructed-InStep :
      (e : E) (s : Spool E)
      → construct environment cipher settings e ≡ ok s
      → InStep environment cipher settings s
  unfolding construct load
  constructed-InStep e s h =
      of_access (environment.check_access e) (of_disk cipher settings (environment.read_file e))
        refl h
    where
      of_access :
          (access : Result SpoolError (Unit {0}))
          (loaded : Result SpoolError (List Item × Option String))
          → of_disk cipher settings (environment.read_file e) ≡ loaded
          → spool_of environment cipher settings e
              (if_allowed environment cipher settings access loaded)
            ≡ ok s
          → InStep environment cipher settings s
      of_access (throw error) loaded same h = cc
      of_access (ok done) (throw error) same h = cc
      of_access (ok done) (ok (items, known)) same h =
          let found = disk-cases cipher settings (environment.read_file e) items known same in
          subst (InStep environment cipher settings) (ok-injective h)
            (record { valid = found.0; on_disk = found.1 })

  module _ (atomic : IsAtomic environment) (sound : IsSound cipher) where
    reached_lem :
        (s : Spool E) → Reached environment cipher settings s → InStep environment cipher settings s
    reached_lem _ (starts e s constructed) = constructed-InStep e s constructed
    reached_lem _ (enqueues s input before well) =
        enqueue-Kept environment cipher settings atomic sound input s well (reached_lem s before)
    reached_lem _ (replaces s remove_ids additions before well) =
        replace-Kept environment cipher settings atomic sound remove_ids additions s well
          (reached_lem s before)
    reached_lem _ (recovers s before) =
        recover-Kept environment cipher settings atomic sound s (reached_lem s before)
    reached_lem _ (opens s item before) =
        open-Kept environment cipher settings atomic sound item s (reached_lem s before)

    -- However a spool is used, and whatever throws, also a write that has installed its file: where
    -- access is allowed, a spool that is constructed again from the file has the items that are in
    -- memory. Files are written atomically, so that the reload after a write that throws can read the
    -- file, and a write leaves the access check as it was; the key store does not touch the spool's
    -- file, decoding undoes encoding, and each payload has a kind that there is and a nonce of twelve
    -- bytes.
    pub construct-again :
        (s : Spool E)
        → Reached environment cipher settings s
        → environment.check_access s.environment ≡ ok tt
        → (again : Spool E) × (construct environment cipher settings s.environment ≡ ok again)
          × (again.items ≡ s.items)
    unfolding construct
    construct-again s reached allowed = of_disk_state (reached_lem s reached).on_disk
      where
        of_disk_state :
            OnDisk cipher settings s.items s.key_id (environment.read_file s.environment)
            → (again : Spool E) × (construct environment cipher settings s.environment ≡ ok again)
              × (again.items ≡ s.items)
        of_disk_state (inl (reads, empty)) = (
          record {
            items = [];
            key_id = none;
            has_persisted_items = false;
            environment = s.environment;
          },
          ap (spool_of environment cipher settings s.environment)
              (load-absent environment cipher settings s.environment allowed reads),
          sym empty,
        )
        of_disk_state (inr (key_id, has, reads)) = (
          record {
            items = s.items;
            key_id = some key_id;
            has_persisted_items = true;
            environment = s.environment;
          },
          ap (spool_of environment cipher settings s.environment) (
              load-target environment cipher settings s.environment key_id s.items allowed reads
                (reached_lem s reached).valid),
          refl,
        )

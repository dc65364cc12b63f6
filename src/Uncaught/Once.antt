-- ===== src/Uncaught/Once.antt =====
-- However many handlers of uncaught errors are installed, an error makes at most one rollback.
use salve_push.Base.{
  ℕ, zero, suc, le→leb, ◌≤◌, ◌≡◌, refl, sym, ap, ◌∙◌, Bool, true, false, Option, none, some, Bytes,
  if◌then◌else◌,
}
use salve_push.Storage.Disk.{Json, Disk}
use salve_push.Storage.Io.{ok, Io, pure, ◌>>◌}
use salve_push.Storage.Operations.{rollback_to_previous, rollback_to_previous_if_unconfirmed}
use salve_push.Storage.Sound.{state_of}
use salve_push.Storage.Calm.{calm, >>=-ok, rolled, rollback_to_previous_lem}
use salve_push.Storage.Android.Same.{rollback_if_unconfirmed-same}
use salve_push.Storage.Android
use salve_push.Uncaught.Handlers.{Handler, notify_previous, uncaught_exception, log_function}

module _ (J : Json) where
  -- The disk after a rollback that is only made before the confirmation.
  abbrev reverted : Disk J → Disk J
  reverted d = if d.mount_marker then d else rolled J (state_of d).previous_release_id d

  rollback_calm :
      (d : Disk J) → rollback_to_previous_if_unconfirmed J (calm d) ≡ (ok tt, calm (reverted d))
  unfolding rollback_to_previous_if_unconfirmed
  rollback_calm d = at d.mount_marker
    where
      at :
          (b : Bool)
          → (if b then pure tt else rollback_to_previous J) (calm d)
            ≡ (ok tt, calm (if b then d else rolled J (state_of d).previous_release_id d))
      at true = refl
      at false = rollback_to_previous_lem J d

  -- A second rollback changes nothing: the first confirms the release, or there is none before.
  reverted_twice : (d : Disk J) → reverted (reverted d) ≡ reverted d
  reverted_twice d = at d.mount_marker (state_of d).previous_release_id refl refl
    where
      at :
          (b : Bool) (o : Option Bytes)
          → d.mount_marker ≡ b
          → (state_of d).previous_release_id ≡ o
          → reverted (if b then d else rolled J o d) ≡ (if b then d else rolled J o d)
      at true o e e' = ap (λ b. if b then d else rolled J (state_of d).previous_release_id d) e
      at false none e e' =
          ap (λ b. if b then d else rolled J (state_of d).previous_release_id d) e
          ∙ ap (λ o. rolled J o d) e'
      at false (some p) e e' = refl

  -- The handler after `n` further installations over `previous`.
  abbrev pub handlers : {T : Type 0} → ℕ → Option (Handler J T) → Option (Handler J T)
  handlers zero previous = previous
  handlers (suc n) previous = some (uncaught_exception J (handlers n previous))

  abbrev pub log_functions :
      {T : Type 0} → ℕ → ℕ → Option (Handler J (ℕ × T)) → Option (Handler J (ℕ × T))
  log_functions fatal zero previous = previous
  log_functions fatal (suc n) previous =
      some (log_function J fatal (log_functions fatal n previous))

  -- Layers of which each makes the rollback before the next make it once.
  layers_once :
      (f : ℕ → Io J (Unit {0}))
      → ((n : ℕ) (d : Disk J) → f (suc n) (calm d) ≡ f n (calm (reverted d)))
      → (n : ℕ) (d : Disk J) → f (suc n) (calm d) ≡ f 0 (calm (reverted d))
  layers_once f layer zero d = layer 0 d
  layers_once f layer (suc n) d =
      layer (suc n) d
      ∙ layers_once f layer n (reverted d)
      ∙ ap (λ d'. f 0 (calm d')) (reverted_twice d)

  rolls_back_first :
      (k : Io J (Unit {0})) (d : Disk J)
      → (rollback_to_previous_if_unconfirmed J >> k) (calm d) ≡ k (calm (reverted d))
  rolls_back_first k d =
      >>=-ok (rollback_to_previous_if_unconfirmed J) (λ _. k) (calm d) (rollback_calm d)

  exception_layer :
      {T : Type 0} (previous : Option (Handler J T)) (error : T) (n : ℕ) (d : Disk J)
      → notify_previous J (handlers (suc n) previous) error (calm d)
        ≡ notify_previous J (handlers n previous) error (calm (reverted d))
  unfolding uncaught_exception
  exception_layer previous error n d =
      >>=-ok (Android.rollback_to_previous_if_unconfirmed J)
        (λ _. notify_previous J (handlers n previous) error) (calm d)
        (rollback_if_unconfirmed-same J d ∙ rollback_calm d)

  log_layer :
      {T : Type 0} (fatal level : ℕ) (previous : Option (Handler J (ℕ × T))) (message : T) (n : ℕ)
      (d : Disk J)
      → fatal ≤ level
      → notify_previous J (log_functions fatal (suc n) previous) (level, message) (calm d)
        ≡ notify_previous J (log_functions fatal n previous) (level, message) (calm (reverted d))
  unfolding log_function
  log_layer fatal level previous message n d h =
      ap
        (λ b.
          ((if b then rollback_to_previous_if_unconfirmed J else pure tt)
              >> notify_previous J (log_functions fatal n previous) (level, message))
            (calm d))
        (le→leb fatal level h)
      ∙ rolls_back_first (notify_previous J (log_functions fatal n previous) (level, message)) d

  -- Where every call works: however many handlers for uncaught exceptions in Kotlin are installed over
  -- a handler that was there, an error makes the same as one rollback, if the boot is not confirmed,
  -- and then that handler.
  pub exceptions_once :
      {T : Type 0} (n : ℕ) (previous : Option (Handler J T)) (error : T) (d : Disk J)
      → notify_previous J (handlers (suc n) previous) error (calm d)
        ≡ (rollback_to_previous_if_unconfirmed J >> notify_previous J previous error) (calm d)
  exceptions_once n previous error d =
      layers_once (λ m. notify_previous J (handlers m previous) error)
        (exception_layer previous error) n d
      ∙ sym (rolls_back_first (notify_previous J previous error) d)

  -- The same for log functions, and a message of at least the fatal level.
  pub logs_once :
      {T : Type 0} (n fatal level : ℕ) (previous : Option (Handler J (ℕ × T))) (message : T)
      (d : Disk J)
      → fatal ≤ level
      → notify_previous J (log_functions fatal (suc n) previous) (level, message) (calm d)
        ≡ (rollback_to_previous_if_unconfirmed J >> notify_previous J previous (level, message))
            (calm d)
  logs_once n fatal level previous message d h =
      layers_once (λ m. notify_previous J (log_functions fatal m previous) (level, message))
        (λ m d'. log_layer fatal level previous message m d' h) n d
      ∙ sym (rolls_back_first (notify_previous J previous (level, message)) d)

-- ===== src/Uncaught/Effect.antt =====
-- What an uncaught error does after installations, on Android and on iOS.
use salve_push.Base.{ℕ, zero, suc, ◌≤◌, ◌≡◌, refl, ap, ◌∙◌, some}
use salve_push.Storage.Disk.{Json, Disk}
use salve_push.Storage.Io.{◌>>◌}
use salve_push.Storage.Operations.{rollback_to_previous_if_unconfirmed}
use salve_push.Storage.Calm.{calm}
use salve_push.Uncaught.Handlers.{
  notify_previous, handle_uncaught_exception, log_function, uncaught_exception,
}
use salve_push.Uncaught.Once.{handlers, log_functions, exceptions_once, logs_once}
use salve_push.Uncaught.Install.{AppHandlers, install_kotlin_handler, install_apple_handlers}

abbrev pub repeated : {A : Type 0} → ℕ → (A → A) → A → A
repeated zero f a = a
repeated (suc n) f a = f (repeated n f a)

module _ (J : Json) {E M : Type 0} where
  kotlin_handlers :
      (n : ℕ) (h : AppHandlers J E M)
      → (repeated n (install_kotlin_handler J) h).uncaught ≡ handlers J n h.uncaught
  kotlin_handlers zero h = refl
  kotlin_handlers (suc n) h = ap (λ o. some (uncaught_exception J o)) (kotlin_handlers n h)

  apple_logs :
      (n fatal : ℕ) (h : AppHandlers J E M)
      → (repeated n (install_apple_handlers J fatal) h).log ≡ log_functions J fatal n h.log
  apple_logs zero fatal h = refl
  apple_logs (suc n) fatal h = ap (λ o. some (log_function J fatal o)) (apple_logs n fatal h)

  -- Where every call works, after one or more installations over the handlers that were there: an
  -- uncaught exception in Kotlin makes the same as one rollback, if the boot is not confirmed, and
  -- then the handler that was there; an uncaught exception on iOS makes that rollback alone,
  -- whatever handler was there; and a message of at least the fatal level on iOS makes the
  -- rollback and then the log function that was there.
  pub handlers_once :
      (n fatal level : ℕ) (h : AppHandlers J E M) (error : E) (message : M) (d : Disk J)
      → fatal ≤ level
      → let rollback = rollback_to_previous_if_unconfirmed J in
        let kotlin = repeated (suc n) (install_kotlin_handler J) h in
        let apple = repeated (suc n) (install_apple_handlers J fatal) h in
        (notify_previous J kotlin.uncaught error (calm d)
          ≡ (rollback >> notify_previous J h.uncaught error) (calm d))
        × (notify_previous J apple.uncaught error (calm d) ≡ rollback (calm d))
        × (notify_previous J apple.log (level, message) (calm d)
            ≡ (rollback >> notify_previous J h.log (level, message)) (calm d))
  unfolding handle_uncaught_exception
  handlers_once n fatal level h error message d severe = (
    ap (λ o. notify_previous J o error (calm d)) (kotlin_handlers (suc n) h)
        ∙ exceptions_once J n h.uncaught error d,
    refl,
    ap (λ o. notify_previous J o (level, message) (calm d)) (apple_logs (suc n) fatal h)
        ∙ logs_once J n fatal level h.log message d severe,
  )

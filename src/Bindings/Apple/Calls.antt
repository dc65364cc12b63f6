-- ===== src/Bindings/Apple/Calls.antt =====
-- From the C++ class through the Swift class to the implementation, and back.
use mathlib.Core.Path.{subst}
use salve_push.Base.{◌≡◌, refl, sym, ap, Bytes, Option}
use salve_push.Bindings.Thrown.{Thrown}
use salve_push.Bindings.Nitro.{Promises}
use salve_push.Bindings.Nitro
use salve_push.Bindings.Android.Forward.{forward, forward-Mirrors}
use salve_push.Bindings.Apple.{
  Results, unwrap, call_install_update, call_notify_app_ready, call_get_current_release_id,
}
use salve_push.Bindings.Apple.Laws.{
  IsLawful, Ended, with, caught, unwrap-promise_result, unwrap-string_result,
}
use salve_push.Bindings.Apple.Swift.{
  Implementation, create_promise, wrap_promise, cxx_promise, bridged_promise, bridged_string,
  install_update, notify_app_ready, get_current_release_id, swift_class, Shows, shown_string,
}

module _ (N : Promises) (R : Results N.Exception) (LR : IsLawful R) (I : Implementation N) where
  open N use {World, Promise, JPromise, Throwable, Exception}

  -- The C++ side of a bridged result.
  abbrev unwrapped : {A : Type 0} → R.Result A × World → Thrown Exception A × World
  unwrapped {A} (result, w) = (unwrap R A result, w)

  bridged_promise-Shows :
      (L : Nitro.IsLawful N) (later : Option Throwable) (ended : Ended Throwable JPromise)
      (w : World)
      → Shows N R I later (ended, w) (unwrapped (bridged_promise N R I (ended, w)))
  unfolding forward cxx_promise create_promise wrap_promise
  bridged_promise-Shows L later (with j) w =
      let (p, w') = cxx_promise N j w in
      subst (Shows N R I later (with j, w))
        (sym (ap (λ t. (t, w')) (unwrap-promise_result R LR Promise (with p))))
        (forward-Mirrors N L later j w (N.outcome j w) refl)
  bridged_promise-Shows L later (caught e) w =
      ap (λ t. (t, w)) (unwrap-promise_result R LR Promise (caught (N.jni_exception e)))

  unwrapped_string :
      (ended : Ended Throwable Bytes) (w : World)
      → unwrapped (bridged_string N R I (ended, w)) ≡ shown_string N R I (ended, w)
  unwrapped_string (with text) w = ap (λ t. (t, w)) (unwrap-string_result R LR (with text))
  unwrapped_string (caught e) w =
      ap (λ t. (t, w)) (unwrap-string_result R LR (caught (N.jni_exception e)))

  -- For promises with the laws of NitroModules, and where a `Result` is read as it was made: the
  -- three iOS methods, through the C++ and the Swift class, call the method of the Swift
  -- implementation with their name and arguments. They throw the error that ended it, or give a
  -- promise that has the outcome of its promise, or is pending and gets it once that is settled,
  -- or give its string.
  pub swift_calls-Shows :
      (L : Nitro.IsLawful N) (object : I.Object) (release_id : Bytes) (bundle : I.ArrayBuffer)
      (w : World) (later : Option Throwable)
      → Shows N R I later
          (I.install_update object release_id (I.holder bundle) w)
          (call_install_update R (swift_class N R I) object release_id bundle w)
        × Shows N R I later
            (I.notify_app_ready object w)
            (call_notify_app_ready R (swift_class N R I) object w)
        × (call_get_current_release_id R (swift_class N R I) object w
            ≡ shown_string N R I (I.get_current_release_id object w))
  unfolding call_install_update call_notify_app_ready call_get_current_release_id install_update
      notify_app_ready get_current_release_id
  swift_calls-Shows L object release_id bundle w later =
      let (installed, w1) = I.install_update object release_id (I.holder bundle) w in
      let (ready, w2) = I.notify_app_ready object w in
      let (current, w3) = I.get_current_release_id object w in
      (
        bridged_promise-Shows L later installed w1,
        bridged_promise-Shows L later ready w2,
        unwrapped_string current w3,
      )

-- ===== src/Bindings/Apple/Swift.antt =====
-- packages/sdk-react-native/nitrogen/generated/ios/swift/HybridSalvePushNativeSpec_cxx.swift: the
-- Swift class that the C++ calls, over an implementation of the protocol.
use salve_push.Base.{ℕ, ◌+◌, ◌≡◌, Bool, Bytes, Option}
use salve_push.Bindings.Thrown.{Thrown, returns, throws}
use salve_push.Bindings.Nitro.{Promises}
use salve_push.Bindings.Android.Forward.{Mirrors}
use salve_push.Bindings.Apple.{
  Results, SwiftClass, create_result_promise, create_result_promise_error, create_result_string,
  create_result_string_error,
}
use salve_push.Bindings.Apple.Laws.{Ended, with, caught}

-- The protocol `HybridSalvePushNativeSpec`: its methods return, or end in a Swift error, which is a
-- throwable of the promises; so are their promises.
pub record Implementation (N : Promises) : Type 1 where
  pub Object : Type 0
  pub ArrayBuffer : Type 0
  pub Buffer : Type 0
  pub holder : ArrayBuffer → Buffer
  pub install_update : Object → Bytes → Buffer → N.World → Ended N.Throwable N.JPromise × N.World
  pub notify_app_ready : Object → N.World → Ended N.Throwable N.JPromise × N.World
  pub get_current_release_id : Object → N.World → Ended N.Throwable Bytes × N.World
  pub size_of : Object → N.World → ℕ
  pub memory_size : Object → N.World → ℕ
  pub is_same : Object → Object → Bool
  pub dispose : Object → N.World → N.World
  pub to_string : Object → N.World → Bytes × N.World
  pub not_swift : N.Exception

-- `PromiseHolder<void>`
pub record PromiseHolder (P : Type 0) : Type 0 where
  pub promise : P

module _ (N : Promises) where
  open N use {World, Promise, JPromise, Throwable, Exception}

  -- `create_std__shared_ptr_Promise_void__` and `wrap_std__shared_ptr_Promise_void__`
  unfoldable pub create_promise : World → Promise × World
  create_promise w = N.create w

  unfoldable pub wrap_promise : Promise → PromiseHolder Promise
  wrap_promise promise = record { promise = promise }

  -- The closure that makes the C++ promise, with its listeners by `then` and `catch`.
  unfoldable pub cxx_promise : JPromise → World → Promise × World
  unfolding create_promise wrap_promise
  cxx_promise result w =
      let (promise, w1) = create_promise w in
      let holder = wrap_promise promise in
      let w2 = N.add_on_resolved_listener result holder.promise w1 in
      (promise, N.add_on_rejected_listener result holder.promise w2)

  module _ (R : Results Exception) (I : Implementation N) where
    open I use {Object, Buffer}

    -- The `do` and `catch` blocks of a method with a promise, and of one with a string.
    abbrev pub bridged_promise : Ended Throwable JPromise × World → R.Result Promise × World
    bridged_promise (with result, w) =
        let (promise, w') = cxx_promise result w in (create_result_promise R Promise promise, w')
    bridged_promise (caught error, w) =
        (create_result_promise_error R Promise (N.jni_exception error), w)

    abbrev pub bridged_string : Ended Throwable Bytes × World → R.Result Bytes × World
    bridged_string (with text, w) = (create_result_string R text, w)
    bridged_string (caught error, w) = (create_result_string_error R (N.jni_exception error), w)

    unfoldable pub install_update : Object → Bytes → Buffer → World → R.Result Promise × World
    install_update object release_id bundle w =
        bridged_promise (I.install_update object release_id bundle w)

    unfoldable pub notify_app_ready : Object → World → R.Result Promise × World
    notify_app_ready object w = bridged_promise (I.notify_app_ready object w)

    unfoldable pub get_current_release_id : Object → World → R.Result Bytes × World
    get_current_release_id object w = bridged_string (I.get_current_release_id object w)

    unfoldable pub memory_size : Object → World → ℕ
    memory_size object w = I.size_of object w + I.memory_size object w

    -- The class, where a reference to an object is the object.
    abbrev pub swift_class : SwiftClass R
    swift_class = record {
      World = World;
      Part = Object;
      Pointer = Object;
      Promise = Promise;
      ArrayBuffer = I.ArrayBuffer;
      Holder = Buffer;
      array_buffer_holder = I.holder;
      install_update = install_update;
      notify_app_ready = notify_app_ready;
      get_current_release_id = get_current_release_id;
      memory_size = memory_size;
      equals = I.is_same;
      dispose = I.dispose;
      to_string = I.to_string;
      from_unsafe = λ object. object;
      to_unsafe = λ object. object;
      not_swift = I.not_swift;
    }

    -- What the C++ caller must see of how a Swift method ended.
    abbrev pub Shows :
        Option Throwable
        → Ended Throwable JPromise × World
        → Thrown Exception Promise × World
        → Type 0
    Shows later (with j, w) (returns p, w') = Mirrors N (N.outcome j w) j p later w'
    Shows later (with j, w) _ = ⊥
    Shows later (caught e, w) result = result ≡ (throws (N.jni_exception e), w)

    abbrev pub shown_string : Ended Throwable Bytes × World → Thrown Exception Bytes × World
    shown_string (with text, w) = (returns text, w)
    shown_string (caught e, w) = (throws (N.jni_exception e), w)

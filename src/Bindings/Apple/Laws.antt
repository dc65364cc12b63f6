-- ===== src/Bindings/Apple/Laws.antt =====
-- What a Swift implementation returns or throws is what the C++ caller sees.
use salve_push.Base.{◌≡◌, ap, ◌∙◌, true, false, Bytes, some}
use salve_push.Bindings.Thrown.{Thrown, returns, throws}
use salve_push.Bindings.Apple.{
  Results, create_result_promise, create_result_promise_error, create_result_string,
  create_result_string_error, unwrap, SwiftClass, call_install_update, call_notify_app_ready,
  call_get_current_release_id,
}

-- A `Result` is read as it was made.
pub record IsLawful {E : Type 0} (R : Results E) : Type 1 where
  pub has_error-with_value : (A : Type 0) (a : A) → R.has_error A (R.with_value A a) ≡ false
  pub value-with_value : (A : Type 0) (a : A) → R.value A (R.with_value A a) ≡ some a
  pub has_error-with_error : (A : Type 0) (e : E) → R.has_error A (R.with_error A e) ≡ true
  pub error-with_error : (A : Type 0) (e : E) → R.error A (R.with_error A e) ≡ some e

-- How the `do` block around a Swift call ended: with a value, or in its `catch`.
pub data Ended (E A : Type 0) : Type 0 where
  with : A → Ended E A
  caught : E → Ended E A

module _ {E : Type 0} (R : Results E) (L : IsLawful R) where
  abbrev pub thrown : (A : Type 0) → Ended E A → Thrown E A
  thrown A (with a) = returns a
  thrown A (caught e) = throws e

  -- The `Result` that the Swift code creates through the bridge.
  abbrev pub promise_result : (P : Type 0) → Ended E P → R.Result P
  promise_result P (with promise) = create_result_promise R P promise
  promise_result P (caught e) = create_result_promise_error R P e

  abbrev pub string_result : Ended E Bytes → R.Result Bytes
  string_result (with text) = create_result_string R text
  string_result (caught e) = create_result_string_error R e

  pub unwrap-promise_result :
      (P : Type 0) (ended : Ended E P) → unwrap R P (promise_result P ended) ≡ thrown P ended
  unfolding unwrap create_result_promise create_result_promise_error
  unwrap-promise_result P (with promise) =
      rw (L.has_error-with_value P promise) (rw (L.value-with_value P promise))
  unwrap-promise_result P (caught e) = rw (L.has_error-with_error P e) (rw (L.error-with_error P e))

  pub unwrap-string_result :
      (ended : Ended E Bytes) → unwrap R Bytes (string_result ended) ≡ thrown Bytes ended
  unfolding unwrap create_result_string create_result_string_error
  unwrap-string_result (with text) =
      rw (L.has_error-with_value Bytes text) (rw (L.value-with_value Bytes text))
  unwrap-string_result (caught e) =
      rw (L.has_error-with_error Bytes e) (rw (L.error-with_error Bytes e))

  module _ (S : SwiftClass R) where
    open S use {World, Part, Pointer, Promise, ArrayBuffer}

    -- Where a `Result` is read as it was made, and the Swift methods make theirs through the
    -- bridge: each of the three methods returns what the Swift method with the same arguments
    -- returned, or throws what it threw, in the same state; no value is read that is not there.
    pub swift_methods_thrown :
        (part : Part) (release_id : Bytes) (bundle : ArrayBuffer) (w w1 w2 w3 : World)
        (installed ready : Ended E Promise) (current : Ended E Bytes)
        → S.install_update part release_id (S.array_buffer_holder bundle) w
          ≡ (promise_result Promise installed, w1)
        → S.notify_app_ready part w ≡ (promise_result Promise ready, w2)
        → S.get_current_release_id part w ≡ (string_result current, w3)
        → (call_install_update R S part release_id bundle w ≡ (thrown Promise installed, w1))
          × (call_notify_app_ready R S part w ≡ (thrown Promise ready, w2))
          × (call_get_current_release_id R S part w ≡ (thrown Bytes current, w3))
    unfolding call_install_update call_notify_app_ready call_get_current_release_id
    swift_methods_thrown part release_id bundle w w1 w2 w3 installed ready current e1 e2 e3 = (
      ap (λ r. (unwrap R Promise r.0, r.1)) e1
          ∙ ap (λ t. (t, w1)) (unwrap-promise_result Promise installed),
      ap (λ r. (unwrap R Promise r.0, r.1)) e2
          ∙ ap (λ t. (t, w2)) (unwrap-promise_result Promise ready),
      ap (λ r. (unwrap R Bytes r.0, r.1)) e3 ∙ ap (λ t. (t, w3)) (unwrap-string_result current),
    )

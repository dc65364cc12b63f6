-- ===== src/Bindings/Apple.antt =====
-- packages/sdk-react-native/nitrogen/generated/ios: c++/HybridSalvePushNativeSpecSwift.hpp and
-- SalvePushNative-Swift-Cxx-Bridge.hpp and .cpp, the C++ class over the Swift implementation.
pub mod Laws
pub mod Closures
pub mod Swift
pub mod Calls
pub mod Lifetime
use salve_push.Base.{ℕ, Bool, false, Bytes, Option, none, some, if◌then◌else◌}
use salve_push.Bindings.Thrown.{Thrown, returns, throws, undefined}

-- `Result<T>` of NitroModules, in which a Swift call that cannot throw reports an error. `none`
-- stands for reading the part that is not there, which has no meaning.
pub record Results (E : Type 0) : Type 1 where
  pub Result : Type 0 → Type 0
  pub with_value : (A : Type 0) → A → Result A
  pub with_error : (A : Type 0) → E → Result A
  pub has_error : (A : Type 0) → Result A → Bool
  pub value : (A : Type 0) → Result A → Option A
  pub error : (A : Type 0) → Result A → Option E

module _ {E : Type 0} (R : Results E) where
  -- `create_Result_std__shared_ptr_Promise_void___`, on a promise and on an exception.
  unfoldable pub create_result_promise : (P : Type 0) → P → R.Result P
  create_result_promise P promise = R.with_value P promise

  unfoldable pub create_result_promise_error : (P : Type 0) → E → R.Result P
  create_result_promise_error P error = R.with_error P error

  -- `create_Result_std__string_`, on a string and on an exception.
  unfoldable pub create_result_string : Bytes → R.Result Bytes
  create_result_string text = R.with_value Bytes text

  unfoldable pub create_result_string_error : E → R.Result Bytes
  create_result_string_error error = R.with_error Bytes error

  abbrev read_or : {A B : Type 0} → Option B → (B → Thrown E A) → Thrown E A
  read_or none f = undefined
  read_or (some b) f = f b

  -- The body that the three methods share behind their call of the Swift part: an error is thrown
  -- again, and a value is returned.
  unfoldable pub unwrap : (A : Type 0) → R.Result A → Thrown E A
  unwrap A result =
      if R.has_error A result
      then read_or (R.error A result) throws
      else read_or (R.value A result) returns

-- The Swift class `HybridSalvePushNativeSpec_cxx`, and `ArrayBufferHolder`.
pub record SwiftClass {E : Type 0} (R : Results E) : Type 1 where
  pub World : Type 0
  pub Part : Type 0
  pub Pointer : Type 0
  pub Promise : Type 0
  pub ArrayBuffer : Type 0
  pub Holder : Type 0
  pub array_buffer_holder : ArrayBuffer → Holder
  pub install_update : Part → Bytes → Holder → World → R.Result Promise × World
  pub notify_app_ready : Part → World → R.Result Promise × World
  pub get_current_release_id : Part → World → R.Result Bytes × World
  pub memory_size : Part → World → ℕ
  pub equals : Part → Part → Bool
  pub dispose : Part → World → World
  pub to_string : Part → World → Bytes × World
  pub from_unsafe : Pointer → Part
  pub to_unsafe : Part → Pointer
  pub not_swift : E

-- A hybrid object as a dynamic cast sees it: of this class, with its Swift part, or of another.
pub data CxxObject (P : Type 0) : Type 0 where
  swift_object : P → CxxObject P
  other_object : CxxObject P

module _ {E : Type 0} (R : Results E) (S : SwiftClass R) where
  open S use {World, Part, Pointer, Promise, ArrayBuffer}

  unfoldable pub call_install_update : Part → Bytes → ArrayBuffer → World → Thrown E Promise × World
  unfolding unwrap
  call_install_update part release_id bundle w =
      let (result, w') = S.install_update part release_id (S.array_buffer_holder bundle) w in
      (unwrap R Promise result, w')

  unfoldable pub call_notify_app_ready : Part → World → Thrown E Promise × World
  unfolding unwrap
  call_notify_app_ready part w =
      let (result, w') = S.notify_app_ready part w in (unwrap R Promise result, w')

  unfoldable pub call_get_current_release_id : Part → World → Thrown E Bytes × World
  unfolding unwrap
  call_get_current_release_id part w =
      let (result, w') = S.get_current_release_id part w in (unwrap R Bytes result, w')

  -- `getExternalMemorySize`, `dispose` and `toString` ask the Swift part.
  unfoldable pub get_external_memory_size : Part → World → ℕ
  get_external_memory_size part w = S.memory_size part w

  unfoldable pub dispose : Part → World → World
  dispose part w = S.dispose part w

  unfoldable pub to_string : Part → World → Bytes × World
  to_string part w = S.to_string part w

  -- `HybridSalvePushNativeSpecSwift::equals`
  unfoldable pub equals : Part → CxxObject Part → Bool
  equals part (swift_object other) = S.equals part other
  equals part other_object = false

  -- `create_std__shared_ptr_HybridSalvePushNativeSpec_`
  unfoldable pub create_object : Pointer → CxxObject Part
  create_object pointer = swift_object (S.from_unsafe pointer)

  -- `get_std__shared_ptr_HybridSalvePushNativeSpec_`, with or without `NITRO_DEBUG`.
  unfoldable pub get_pointer : Bool → CxxObject Part → Thrown E Pointer
  get_pointer debug (swift_object part) = returns (S.to_unsafe part)
  get_pointer debug other_object = if debug then throws S.not_swift else undefined

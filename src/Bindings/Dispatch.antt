-- ===== src/Bindings/Dispatch.antt =====
-- packages/sdk-react-native/nitrogen/generated: the abstract class of
-- shared/c++/HybridSalvePushNativeSpec.hpp, and the classes of the two platforms that override its
-- methods, as a call from JavaScript reaches them.
pub mod Reaches
use salve_push.Base.{ℕ, Bool, Bytes, String, Option, none, some}
use salve_push.Bindings.Nitro.{Promises}
use salve_push.Bindings.Thrown.{Thrown, returns, throws, undefined, Table}
use salve_push.Bindings.Android.{
  Method, install_update, notify_app_ready, get_current_release_id, Java, call_install_update,
  call_notify_app_ready, call_get_current_release_id,
}
use salve_push.Bindings.Apple.{Results, SwiftClass, CxxObject}
use salve_push.Bindings.Apple

-- `HybridSalvePushNativeSpec`: the name that it gives to `HybridObject`, and its virtual methods.
pub record HybridSpec (World E P B : Type 0) : Type 0 where
  pub tag : String
  pub install_update : Bytes → B → World → Thrown E P × World
  pub notify_app_ready : World → Thrown E P × World
  pub get_current_release_id : World → Thrown E Bytes × World

abbrev tag : String
tag = "SalvePushNative"

-- `JHybridSalvePushNativeSpec`, constructed on its Java part.
module _ (N : Promises) (J : Java N) where
  unfoldable pub android_object :
      J.JavaPart → HybridSpec N.World N.Exception N.Promise J.ArrayBuffer
  android_object part = record {
    tag = tag;
    install_update = call_install_update N J part;
    notify_app_ready = call_notify_app_ready N J part;
    get_current_release_id = call_get_current_release_id N J part;
  }

-- `HybridSalvePushNativeSpecSwift`, constructed on its Swift part: its `getSwiftPart`, the methods
-- of `HybridObject` that it overrides, and those of `HybridSalvePushNativeSpec`.
pub record AppleObject {E : Type 0} (R : Results E) (S : SwiftClass R) : Type 0 where
  pub swift_part : S.Part
  pub memory_size : S.World → ℕ
  pub equals : CxxObject S.Part → Bool
  pub dispose : S.World → S.World
  pub to_string : S.World → Bytes × S.World
  pub spec : HybridSpec S.World E S.Promise S.ArrayBuffer

module _ {E : Type 0} (R : Results E) (S : SwiftClass R) where
  unfoldable pub apple_object : S.Part → AppleObject R S
  apple_object part = record {
    swift_part = part;
    memory_size = Apple.get_external_memory_size R S part;
    equals = Apple.equals R S part;
    dispose = Apple.dispose R S part;
    to_string = Apple.to_string R S part;
    spec = record {
      tag = tag;
      install_update = Apple.call_install_update R S part;
      notify_app_ready = Apple.call_notify_app_ready R S part;
      get_current_release_id = Apple.call_get_current_release_id R S part;
    };
  }

-- What JavaScript passes to a method, and what it gets.
pub data JsArguments (B : Type 0) : Type 0 where
  none_passed : JsArguments B
  release_and_bundle : Bytes → B → JsArguments B

pub data JsValue (P : Type 0) : Type 0 where
  promise : P → JsValue P
  text : Bytes → JsValue P

module _ {World E P : Type 0} where
  abbrev pub promised : Thrown E P × World → Thrown E (JsValue P) × World
  promised (returns p, w) = (returns (promise p), w)
  promised (throws e, w) = (throws e, w)
  promised (undefined, w) = (undefined, w)

  abbrev pub texted : Thrown E Bytes × World → Thrown E (JsValue P) × World
  texted (returns t, w) = (returns (text t), w)
  texted (throws e, w) = (throws e, w)
  texted (undefined, w) = (undefined, w)

module _ {World E P B : Type 0} where
  -- The call of a registered member on an object, or `none` where its arguments are not those of the
  -- method, which NitroModules refuses.
  abbrev pub invoke :
      Method
      → JsArguments B
      → HybridSpec World E P B
      → World
      → Option (Thrown E (JsValue P) × World)
  invoke install_update (release_and_bundle id bundle) object w =
      some (promised (object.install_update id bundle w))
  invoke install_update none_passed object w = none
  invoke notify_app_ready none_passed object w = some (promised (object.notify_app_ready w))
  invoke notify_app_ready (release_and_bundle id bundle) object w = none
  invoke get_current_release_id none_passed object w =
      some (texted (object.get_current_release_id w))
  invoke get_current_release_id (release_and_bundle id bundle) object w = none

  abbrev pub invoke_found :
      Option Method
      → JsArguments B
      → HybridSpec World E P B
      → World
      → Option (Thrown E (JsValue P) × World)
  invoke_found none arguments object w = none
  invoke_found (some method) arguments object w = invoke method arguments object w

  -- A call by name.
  unfoldable pub js_call :
      (t : Table Method)
      → t.State
      → String
      → JsArguments B
      → HybridSpec World E P B
      → World
      → Option (Thrown E (JsValue P) × World)
  js_call t s name arguments object w = invoke_found (t.find name s) arguments object w

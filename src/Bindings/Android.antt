-- ===== src/Bindings/Android.antt =====
-- packages/sdk-react-native/nitrogen/generated: android/c++/JHybridSalvePushNativeSpec.cpp and
-- .hpp, android/salvepushOnLoad.cpp and shared/c++/HybridSalvePushNativeSpec.cpp, with
-- android/src/main/cpp/cpp-adapter.cpp.
pub mod Forward
pub mod Laws
pub mod OnLoad
pub mod Lifetime
use salve_push.Base.{Bool, Bytes, String, Option, none, some, List, [], ◌∷◌, if◌then◌else◌}
use salve_push.Bindings.Nitro.{Promises}
use salve_push.Bindings.Thrown.{Thrown, returns, throws, undefined, Table}
use salve_push.Bindings.Android.Forward.{forward}

-- The methods of the class, as the pointers to members that are registered.
pub data Method : Type 0 where
  install_update notify_app_ready get_current_release_id : Method

-- `HybridSalvePushNativeSpec::loadHybridMethods`; `base` is `HybridObject::loadHybridMethods`.
unfoldable pub load_hybrid_methods : (t : Table Method) → (t.State → t.State) → t.State → t.State
load_hybrid_methods t base s =
    let s1 = t.register "installUpdate" install_update (base s) in
    let s2 = t.register "notifyAppReady" notify_app_ready s1 in
    t.register "getCurrentReleaseId" get_current_release_id s2

-- An argument of a Java method.
pub data JArgument (S B : Type 0) : Type 0 where
  jstring : S → JArgument S B
  jbuffer : B → JArgument S B

-- The Java side, through fbjni. A method is looked up by its name and called on an object; the
-- call may throw. `hybrid_of` is `JHybridObject::JavaPart::getJHybridObject`, where `none` is an
-- object of another C++ class.
pub record Java (N : Promises) : Type 1 where
  pub JavaPart : Type 0
  pub JString : Type 0
  pub JArrayBuffer : Type 0
  pub ArrayBuffer : Type 0
  pub make_jstring : Bytes → JString
  pub to_std_string : JString → Bytes
  pub wrap : ArrayBuffer → JArrayBuffer
  pub new_object : N.World → JavaPart × N.World
  pub hybrid_of : JavaPart → Option JavaPart
  pub is_instance : JavaPart → Bool
  pub failed : String → N.Exception
  pub call_promise :
      JavaPart
      → String
      → List (JArgument JString JArrayBuffer)
      → N.World
      → Thrown N.Exception N.JPromise × N.World
  pub call_string :
      JavaPart
      → String
      → List (JArgument JString JArrayBuffer)
      → N.World
      → Thrown N.Exception JString × N.World

module _ (N : Promises) (J : Java N) where
  open N use {World, Promise, JPromise, Exception}
  open J use {JavaPart, JString, ArrayBuffer}

  -- The end of `installUpdate` and `notifyAppReady`.
  abbrev pub forward_call : Thrown Exception JPromise × World → Thrown Exception Promise × World
  forward_call (returns result, w) = let (promise, w') = forward N result w in (returns promise, w')
  forward_call (throws e, w) = (throws e, w)
  forward_call (undefined, w) = (undefined, w)

  abbrev pub std_string : Thrown Exception JString × World → Thrown Exception Bytes × World
  std_string (returns text, w) = (returns (J.to_std_string text), w)
  std_string (throws e, w) = (throws e, w)
  std_string (undefined, w) = (undefined, w)

  -- `JHybridSalvePushNativeSpec::installUpdate`; the object is its Java part.
  unfoldable pub call_install_update :
      JavaPart → Bytes → ArrayBuffer → World → Thrown Exception Promise × World
  call_install_update part release_id bundle w = forward_call (
      J.call_promise part "installUpdate"
        (jstring (J.make_jstring release_id) ∷ jbuffer (J.wrap bundle) ∷ []) w)

  unfoldable pub call_notify_app_ready : JavaPart → World → Thrown Exception Promise × World
  call_notify_app_ready part w = forward_call (J.call_promise part "notifyAppReady" [] w)

  unfoldable pub call_get_current_release_id : JavaPart → World → Thrown Exception Bytes × World
  call_get_current_release_id part w = std_string (J.call_string part "getCurrentReleaseId" [] w)

  -- `JavaPart::getJHybridSalvePushNativeSpec`
  unfoldable pub get_j_hybrid : JavaPart → Thrown Exception JavaPart
  get_j_hybrid part = elim (J.hybrid_of part) [
    | none ↦ throws (J.failed "Failed to downcast JHybridObject to JHybridSalvePushNativeSpec!")
    | some object ↦ returns object
  ]

  -- `CxxPart::createHybridObject`
  unfoldable pub create_hybrid_object : JavaPart → Thrown Exception JavaPart
  create_hybrid_object part =
      if J.is_instance part
      then returns part
      else throws (
          J.failed
            "Failed to cast JHybridObject::JavaPart to JHybridSalvePushNativeSpec::JavaPart!")

  -- `JHybridSalvePushNativeSpecImpl::create`
  unfoldable pub create : World → Thrown Exception JavaPart × World
  unfolding get_j_hybrid
  create w = let (part, w') = J.new_object w in (get_j_hybrid part, w')

-- The native functions of the class, and what a registered constructor makes.
pub data Native : Type 0 where
  init_hybrid : Native

pub data Constructor : Type 0 where
  j_hybrid_create : Constructor

module _ (natives : Table Native) (constructors : Table Constructor) where
  -- `CxxPart::registerNatives`
  unfoldable pub register_natives : natives.State → natives.State
  register_natives = natives.register "initHybrid" init_hybrid

  unfoldable pub register_all_natives :
      natives.State × constructors.State → natives.State × constructors.State
  unfolding register_natives
  register_all_natives (n, c) =
      (register_natives n, constructors.register "SalvePushNative" j_hybrid_create c)

  -- `JNI_OnLoad`; `initialize` is `facebook::jni::initialize`, which runs the function it is given.
  unfoldable pub jni_on_load :
      {R : Type 0}
      → ((natives.State × constructors.State → natives.State × constructors.State) → R)
      → R
  jni_on_load initialize = initialize register_all_natives

  -- `initialize`, the deprecated entry point; `initialize_jni` is `facebook::jni::initialize`.
  unfoldable pub initialize :
      {R : Type 0}
      → ((natives.State × constructors.State → natives.State × constructors.State) → R)
      → R
  initialize initialize_jni = initialize_jni register_all_natives

-- ===== src/Bindings/Android/Laws.antt =====
-- From a name in JavaScript to the Kotlin method of that name.
use salve_push.Base.{◌≡◌, refl, Bytes, String, Option, some, List, [], ◌∷◌, if◌then◌else◌}
use text.Mathlib.Text.{◌==◌ as str_eq}
use salve_push.Bindings.Nitro.{Promises, IsLawful}
use salve_push.Bindings.Android.Forward.{Mirrors, forward-Mirrors}
use salve_push.Bindings.Thrown.{Thrown, returns, throws, undefined, Table, FindsRegistered}
use salve_push.Bindings.Android.{
  Method, install_update, notify_app_ready, get_current_release_id, load_hybrid_methods, Java,
  JArgument, jstring, jbuffer, forward_call, std_string, call_install_update, call_notify_app_ready,
  call_get_current_release_id,
}

-- The name of a method, in JavaScript and in Kotlin.
abbrev pub name_of : Method → String
name_of install_update = "installUpdate"
name_of notify_app_ready = "notifyAppReady"
name_of get_current_release_id = "getCurrentReleaseId"

-- In a table that finds what was registered last: after `loadHybridMethods` each of the three
-- names finds its own method, and any other name finds what it found behind the base methods.
pub load_hybrid_methods_lem :
    (t : Table Method) (base : t.State → t.State) (s : t.State) (name : String)
    → FindsRegistered t
    → t.find name (load_hybrid_methods t base s) ≡ (
        if str_eq name (name_of get_current_release_id)
        then some get_current_release_id
        else if str_eq name (name_of notify_app_ready)
        then some notify_app_ready
        else if str_eq name (name_of install_update)
        then some install_update
        else t.find name (base s))
unfolding load_hybrid_methods
load_hybrid_methods_lem t base s name h =
    let s1 = t.register (name_of install_update) install_update (base s) in
    let s2 = t.register (name_of notify_app_ready) notify_app_ready s1 in
    rw (h (name_of get_current_release_id) name get_current_release_id s2) (
      rw (h (name_of notify_app_ready) name notify_app_ready s1)
        (rw (h (name_of install_update) name install_update (base s))))

module _ (N : Promises) (L : IsLawful N) (J : Java N) where
  open N use {World, Promise, JPromise, Throwable, Exception}
  open J use {JavaPart, ArrayBuffer}

  -- The arguments of the Kotlin `installUpdate`.
  abbrev pub install_arguments : Bytes → ArrayBuffer → List (JArgument J.JString J.JArrayBuffer)
  install_arguments release_id bundle =
      jstring (J.make_jstring release_id) ∷ jbuffer (J.wrap bundle) ∷ []

  -- What a C++ call must give for what the Kotlin call gave: the exception that it threw, or a
  -- promise that mirrors its promise.
  abbrev pub Follows :
      Option Throwable
      → Thrown Exception JPromise × World
      → Thrown Exception Promise × World
      → Type 0
  Follows later (returns j, w) (returns p, w') = Mirrors N (N.outcome j w) j p later w'
  Follows later (returns j, w) _ = ⊥
  Follows later (throws e, w) result = result ≡ (throws e, w)
  Follows later (undefined, w) result = result ≡ (undefined, w)

  forward_call-Follows :
      (later : Option Throwable) (result : Thrown Exception JPromise) (w : World)
      → Follows later (result, w) (forward_call N J (result, w))
  forward_call-Follows later (returns j) w = forward-Mirrors N L later j w (N.outcome j w) refl
  forward_call-Follows later (throws e) w = refl
  forward_call-Follows later undefined w = refl

  -- For promises with the laws of NitroModules: the two methods with a promise call the Kotlin
  -- method of their own name, `installUpdate` with its two arguments converted. They throw what it
  -- threw, or give a promise that has the outcome of the Kotlin promise, or is pending and gets it
  -- once that is settled. `getCurrentReleaseId` gives the Kotlin string, or throws what the Kotlin
  -- call threw.
  pub methods-Follows :
      (part : JavaPart) (release_id : Bytes) (bundle : ArrayBuffer) (w : World)
      (later : Option Throwable)
      → Follows later
          (J.call_promise part (name_of install_update) (install_arguments release_id bundle) w)
          (call_install_update N J part release_id bundle w)
        × Follows later
            (J.call_promise part (name_of notify_app_ready) [] w)
            (call_notify_app_ready N J part w)
        × (call_get_current_release_id N J part w
            ≡ std_string N J (J.call_string part (name_of get_current_release_id) [] w))
  unfolding call_install_update call_notify_app_ready call_get_current_release_id
  methods-Follows part release_id bundle w later =
      let (r, w1) =
        J.call_promise part (name_of install_update) (install_arguments release_id bundle) w in
      let (r', w2) = J.call_promise part (name_of notify_app_ready) [] w in
      (forward_call-Follows later r w1, forward_call-Follows later r' w2, refl)

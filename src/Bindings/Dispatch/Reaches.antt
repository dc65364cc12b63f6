-- ===== src/Bindings/Dispatch/Reaches.antt =====
-- A call by name in JavaScript reaches the method of that name in Kotlin or Swift.
use salve_push.Base.{◌≡◌, ap, ◌∙◌, Bytes, Option, some, []}
use salve_push.Bindings.Nitro.{Promises}
use salve_push.Bindings.Nitro
use salve_push.Bindings.Thrown.{Thrown, Table, FindsRegistered}
use salve_push.Bindings.Android.{
  Method, load_hybrid_methods, Java, std_string, call_install_update, call_notify_app_ready,
  call_get_current_release_id,
}
use salve_push.Bindings.Android.Laws.{
  load_hybrid_methods_lem, install_arguments, Follows, methods-Follows,
}
use salve_push.Bindings.Apple
use salve_push.Bindings.Apple.{Results}
use salve_push.Bindings.Apple.Laws.{IsLawful}
use salve_push.Bindings.Apple.Swift.{Implementation, swift_class, Shows, shown_string}
use salve_push.Bindings.Apple.Calls.{swift_calls-Shows}
use salve_push.Bindings.Dispatch.{
  HybridSpec, android_object, apple_object, none_passed, release_and_bundle, promised, texted,
  invoke_found, js_call,
}

module _ (t : Table Method) (base : t.State → t.State) (s : t.State)
    (finds : FindsRegistered t) where
  abbrev pub loaded : t.State
  loaded = load_hybrid_methods t base s

  module _ {World E P B : Type 0} (object : HybridSpec World E P B) where
    -- A call of one of the three names invokes the member of that name.
    js_call_lem :
        (release_id : Bytes) (bundle : B) (w : World)
        → (js_call t loaded "installUpdate" (release_and_bundle release_id bundle) object w
            ≡ some (promised (object.install_update release_id bundle w)))
          × (js_call t loaded "notifyAppReady" none_passed object w
              ≡ some (promised (object.notify_app_ready w)))
          × (js_call t loaded "getCurrentReleaseId" none_passed object w
              ≡ some (texted (object.get_current_release_id w)))
    unfolding js_call
    js_call_lem release_id bundle w = (
      ap (λ o. invoke_found o (release_and_bundle release_id bundle) object w)
          (load_hybrid_methods_lem t base s "installUpdate" finds),
      ap (λ o. invoke_found o none_passed object w)
          (load_hybrid_methods_lem t base s "notifyAppReady" finds),
      ap (λ o. invoke_found o none_passed object w)
          (load_hybrid_methods_lem t base s "getCurrentReleaseId" finds),
    )

  module _ (N : Promises) (L : Nitro.IsLawful N) (J : Java N) where
    -- In a table that finds what was registered last, and for promises with the laws of
    -- NitroModules: a call by one of the three names in JavaScript on the Android object calls the
    -- Kotlin method of that name with its arguments converted. It throws what that threw, or gives
    -- a promise that has the outcome of the Kotlin promise, or is pending and gets it once that is
    -- settled, or gives the Kotlin string.
    pub js_call-Follows :
        (part : J.JavaPart) (release_id : Bytes) (bundle : J.ArrayBuffer) (w : N.World)
        (later : Option N.Throwable)
        → (installed ready : Thrown N.Exception N.Promise × N.World) × (js_call t loaded
              "installUpdate"
              (release_and_bundle release_id bundle)
              (android_object N J part)
              w
            ≡ some (promised installed))
          × Follows N L J later
              (J.call_promise part "installUpdate" (install_arguments N L J release_id bundle) w)
              installed
          × (js_call t loaded "notifyAppReady" none_passed (android_object N J part) w
              ≡ some (promised ready))
          × Follows N L J later (J.call_promise part "notifyAppReady" [] w) ready
          × (js_call t loaded "getCurrentReleaseId" none_passed (android_object N J part) w
              ≡ some (texted (std_string N J (J.call_string part "getCurrentReleaseId" [] w))))
    unfolding android_object call_get_current_release_id
    js_call-Follows part release_id bundle w later =
        let (first, second, third) = js_call_lem (android_object N J part) release_id bundle w in
        let (follows, follows', _) = methods-Follows N L J part release_id bundle w later in
        (
          call_install_update N J part release_id bundle w,
          call_notify_app_ready N J part w,
          first,
          follows,
          second,
          follows',
          third,
        )

  module _ (N : Promises) (R : Results N.Exception) (LR : IsLawful R) (I : Implementation N) where
    -- In a table that finds what was registered last, for promises with the laws of NitroModules,
    -- and where a `Result` is read as it was made: a call by one of the three names in JavaScript
    -- on the iOS object calls the Swift method of that name with its arguments. It throws the
    -- error that ended it, or gives a promise that has the outcome of its promise, or is pending
    -- and gets it once that is settled, or gives its string.
    pub js_call-Shows :
        (L : Nitro.IsLawful N) (object : I.Object) (release_id : Bytes) (bundle : I.ArrayBuffer)
        (w : N.World) (later : Option N.Throwable)
        → let spec = (apple_object R (swift_class N R I) object).spec in
          (installed ready : Thrown N.Exception N.Promise × N.World) × (js_call t loaded
              "installUpdate"
              (release_and_bundle release_id bundle)
              spec
              w
            ≡ some (promised installed))
          × Shows N R I later (I.install_update object release_id (I.holder bundle) w) installed
          × (js_call t loaded "notifyAppReady" none_passed spec w ≡ some (promised ready))
          × Shows N R I later (I.notify_app_ready object w) ready
          × (js_call t loaded "getCurrentReleaseId" none_passed spec w
              ≡ some (texted (shown_string N R I (I.get_current_release_id object w))))
    unfolding apple_object
    js_call-Shows L object release_id bundle w later =
        let S = swift_class N R I in
        let (first, second, third) =
          js_call_lem (apple_object R S object).spec release_id bundle w in
        let (shows, shows', same) = swift_calls-Shows N R LR I L object release_id bundle w later in
        (
          Apple.call_install_update R S object release_id bundle w,
          Apple.call_notify_app_ready R S object w,
          first,
          shows,
          second,
          shows',
          third ∙ ap (λ e. some (texted e)) same,
        )

-- ===== src/Bindings/Tests/Dispatch.antt =====
-- The calls on the small Kotlin and Swift objects.
use salve_push.Base.{ℕ, ◌≡◌, Bytes, codes, some, [], ◌∷◌}
use salve_push.Bindings.Thrown.{Thrown, returns, throws}
use salve_push.Bindings.Nitro.Instance.{Book, book_promises, book_promises-IsLawful}
use salve_push.Bindings.Android.{Method}
use salve_push.Bindings.Android.Laws.{Follows}
use salve_push.Bindings.Apple.Laws.{with, caught}
use salve_push.Bindings.Apple.Swift.{swift_class, Shows}
use salve_push.Bindings.Dispatch.{
  HybridSpec, android_object, apple_object, none_passed, release_and_bundle, promised, texted,
  js_call,
}
use salve_push.Bindings.Dispatch.Reaches.{loaded, js_call-Follows, js_call-Shows}
use salve_push.Bindings.Tests.{
  table, table-FindsRegistered, kotlin, idle, results, results-IsLawful,
}
use salve_push.Bindings.Tests.Swift.{implementation}

abbrev methods : (table Method).State
methods = loaded (table Method) (λ s. s) [] (table-FindsRegistered Method)

abbrev android : HybridSpec Book ℕ (book_promises.Promise) Bytes
android = android_object book_promises kotlin 1

abbrev apple : HybridSpec Book ℕ (book_promises.Promise) Bytes
apple = (apple_object results (swift_class book_promises results implementation) 1).spec

js_call-Follows_example :
    (installed ready : Thrown ℕ book_promises.Promise × Book) × (js_call
        (table Method)
        methods
        "installUpdate"
        (release_and_bundle (codes "r1") (5 ∷ []))
        android
        idle
      ≡ some (promised installed))
    × Follows book_promises book_promises-IsLawful kotlin (some 4) (returns tt, idle) installed
    × (js_call (table Method) methods "notifyAppReady" none_passed android idle
        ≡ some (promised ready))
    × Follows book_promises book_promises-IsLawful kotlin (some 4) (returns tt, idle) ready
    × (js_call (table Method) methods "getCurrentReleaseId" none_passed android idle
        ≡ some (texted (throws 7, idle)))
js_call-Follows_example =
    js_call-Follows (table Method) (λ s. s) [] (table-FindsRegistered Method) book_promises
      book_promises-IsLawful kotlin 1 (codes "r1") (5 ∷ []) idle (some 4)

js_call-Shows_example :
    (installed ready : Thrown ℕ book_promises.Promise × Book) × (js_call
        (table Method)
        methods
        "installUpdate"
        (release_and_bundle (codes "r1") (5 ∷ []))
        apple
        idle
      ≡ some (promised installed))
    × Shows book_promises results implementation (some 4) (with tt, idle) installed
    × (js_call (table Method) methods "notifyAppReady" none_passed apple idle
        ≡ some (promised ready))
    × Shows book_promises results implementation (some 4) (caught 8, idle) ready
    × (js_call (table Method) methods "getCurrentReleaseId" none_passed apple idle
        ≡ some (texted (throws 7, idle)))
js_call-Shows_example =
    js_call-Shows (table Method) (λ s. s) [] (table-FindsRegistered Method) book_promises results
      results-IsLawful implementation book_promises-IsLawful 1 (codes "r1") (5 ∷ []) idle (some 4)

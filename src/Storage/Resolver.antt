-- ===== src/Storage/Resolver.antt =====
-- packages/sdk-react-native/ios/SalvePushBundleResolver.swift and
-- android/src/main/java/com/margelo/nitro/salvepush/SalvePushBundleResolver.kt: the bundle that the
-- app is given at its launch. A path is that of the release's bundle.
use salve_push.Base.{true, Option, none, some, Bytes, ◌≡◌, refl}
use salve_push.Storage.Disk.{Json, DecodesEncoded, Disk, bundle_exists}
use salve_push.Storage.Io.{Io, World, ◌>>=◌, pure}
use salve_push.Storage.Holds.{Holds, Holds->>=}
use salve_push.Storage.Sound.{HasBundle, IsSound}
use salve_push.Storage.Launch.{resolve_bundle_path-IsSound}
use salve_push.Storage.Quiet.{NotThrown, >>=-IsQuiet, resolve_bundle_path-IsQuiet}
use salve_push.Storage.Operations
use salve_push.Storage.Android

-- The URL of a release's bundle, or the one that the app has passed.
pub data Location (U : Type 0) : Type 0 where
  file_url : Bytes → Location U
  default_url : U → Location U

abbrev pub located : {U : Type 0} → Option U → Option Bytes → Option (Location U)
located (some url) none = some (default_url url)
located none none = none
located default (some id) = some (file_url id)

module _ (J : Json) where
  -- `salve_push_resolve_bundle_path`, where the copy of a path is the path.
  unfoldable pub resolve_bundle_path_c : Io J (Option Bytes)
  resolve_bundle_path_c = do path ← Operations.resolve_bundle_path J; pure path

module _ (J : Json) {U : Type 0} where
  -- `resolveBundleURL(default:)`
  unfoldable pub resolve_bundle_url : Option U → Io J (Option (Location U))
  resolve_bundle_url default = do
    path ← Operations.resolve_bundle_path J
    pure (located default path)

  -- `resolveBundleFile`
  unfoldable pub resolve_bundle_file : Option U → Io J (Option (Location U))
  resolve_bundle_file default = do path ← Android.resolve_bundle_path J; pure (located default path)

  -- The app gets what it has passed, or a bundle that is there.
  abbrev pub IsBootable : Option U → Option (Location U) → Disk J → Type 0
  IsBootable default none d = default ≡ none
  IsBootable default (some (default_url url)) d = default ≡ some url
  IsBootable default (some (file_url id)) d = bundle_exists id d ≡ true

  located-IsBootable :
      (default : Option U) (path : Option Bytes) (d : Disk J)
      → HasBundle path d
      → IsBootable default (located default path) d
  located-IsBootable none none d h = refl
  located-IsBootable (some url) none d h = refl
  located-IsBootable none (some id) d h = h
  located-IsBootable (some url) (some id) d h = h

  -- If the JSON coders read back what they wrote: from a sound disk, whatever fails,
  -- `resolveBundleURL` does not throw and leaves a sound disk, also where the process dies; and
  -- what it gives is the URL that the app has passed, or a bundle that is there.
  pub resolve_bundle_url-IsBootable :
      (default : Option U) (w : World J)
      → DecodesEncoded J
      → IsSound w.disk
      → NotThrown (resolve_bundle_url default w)
        × Holds (λ r d. IsSound d × IsBootable default r d) IsSound (resolve_bundle_url default w)
  unfolding resolve_bundle_url
  resolve_bundle_url-IsBootable default w law sound = (
    >>=-IsQuiet (Operations.resolve_bundle_path J) (λ path. pure (located default path))
        (resolve_bundle_path-IsQuiet J) (λ path v. tt) w,
    Holds->>= (λ r d. IsSound d × HasBundle r d) (λ r d. IsSound d × IsBootable default r d) IsSound
        (Operations.resolve_bundle_path J) (λ path. pure (located default path)) w
        (resolve_bundle_path-IsSound J law w sound)
        (λ path v (still, bundle). (still, located-IsBootable default path v.disk bundle)),
  )

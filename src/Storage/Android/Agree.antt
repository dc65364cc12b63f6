-- ===== src/Storage/Android/Agree.antt =====
-- SalvePushStorage.swift and SalvePushStorage.kt, each with the coders of its own platform.
use salve_push.Base.{◌≡◌, refl, sym, ap, ◌∙◌, Bytes}
use salve_push.Storage.Disk.{Json, DecodesEncoded, Disk}
use salve_push.Storage.Io.{ok, Result, World}
use salve_push.Storage.Operations
use salve_push.Storage.Calm.{calm}
use salve_push.Storage.View.{
  View, view_installed, view_confirmed, view_unconfirmed, view_crashed, view_bundle, id_or_empty,
  view, Gives, installed-Gives, confirmed-Gives, unconfirmed-Gives, launched-Gives, current-Gives,
}
use salve_push.Storage.Android.Same.{same_coders}
use salve_push.Storage.Android

-- Two runs return the same and leave disks that mean the same.
abbrev pub SameEffect : (J K : Json) {A : Type 0} → Result A × World J → Result A × World K → Type 0
SameEffect J K {A} swift kotlin =
    (a : A) × (swift.0 ≡ ok a) × (kotlin.0 ≡ ok a) × (view J swift.1.disk ≡ view K kotlin.1.disk)

module _ (J K : Json) (law : DecodesEncoded J) (law' : DecodesEncoded K) where
  -- Each gives what the view says, the Kotlin storage behind the same code over its coders.
  joined :
      {A : Type 0} (a b : A) (u v : View) (swift : Result A × World J)
      (like kotlin : Result A × World K)
      → Gives J a u swift
      → Gives K b v like
      → kotlin ≡ like
      → a ≡ b
      → u ≡ v
      → SameEffect J K swift kotlin
  joined a b u v swift like kotlin (d, run, left) (e, run', left') same results views = (
    a,
    ap (λ (r : Result _ × World J). r.0) run,
    ap (λ (r : Result _ × World K). r.0) (same ∙ run') ∙ ap ok (sym results),
    ap (λ (r : Result _ × World J). view J r.1.disk) run
        ∙ left
        ∙ views
        ∙ sym left'
        ∙ sym (ap (λ (r : Result _ × World K). view K r.1.disk) (same ∙ run')),
  )

  -- With JSON coders on each platform that read back what they wrote, and on two disks whose files
  -- mean the same to the two storages, which is that they read the same state, there is a mount
  -- marker on both or on none, a crash marker with the same flag on both or on none, and the
  -- releases are the same: where every call works, `installUpdate`, `confirmBoot`,
  -- `resolveBundlePath`, `rollbackToPreviousIfUnconfirmed` and `getCurrentReleaseId` of the Swift
  -- and of the Kotlin storage return the same, and leave disks that mean the same again.
  pub storages_agree :
      (id bytes : Bytes) (d : Disk J) (e : Disk K)
      → view J d ≡ view K e
      → SameEffect J K
          (Operations.install_update J id bytes (calm d))
          (Android.install_update K id bytes (calm e))
        × SameEffect J K (Operations.confirm_boot J (calm d)) (Android.confirm_boot K (calm e))
        × SameEffect J K
            (Operations.resolve_bundle_path J (calm d))
            (Android.resolve_bundle_path K (calm e))
        × SameEffect J K
            (Operations.rollback_to_previous_if_unconfirmed J (calm d))
            (Android.rollback_to_previous_if_unconfirmed K (calm e))
        × SameEffect J K
            (Operations.get_current_release_id J (calm d))
            (Android.get_current_release_id K (calm e))
  storages_agree id bytes d e h =
      let (installs, confirms, launches, rolls, asks) = same_coders K id bytes e in
      let launched : View → View = λ v. view_crashed v.crash v in
      (
        joined tt tt _ _ _ _ _ (installed-Gives J law id bytes d)
            (installed-Gives K law' id bytes e) installs refl (ap (view_installed id bytes) h),
        joined tt tt _ _ _ _ _ (confirmed-Gives J law d) (confirmed-Gives K law' e) confirms refl
            (ap view_confirmed h),
        joined _ _ _ _ _ _ _ (launched-Gives J law d) (launched-Gives K law' e) launches
            (ap (λ v. view_bundle (launched v).state.current_release_id (launched v)) h)
            (ap launched h),
        joined tt tt _ _ _ _ _ (unconfirmed-Gives J law d) (unconfirmed-Gives K law' e) rolls refl
            (ap (λ v. view_unconfirmed v.mounted v) h),
        joined _ _ _ _ _ _ _ (current-Gives J law d) (current-Gives K law' e) asks
            (ap (λ v. id_or_empty v.state.current_release_id) h) h,
      )

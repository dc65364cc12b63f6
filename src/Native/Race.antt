-- ===== src/Native/Race.antt =====
-- packages/sdk-react-native/android/src/main/java/com/margelo/nitro/salvepush/HybridSalvePushNative.kt:
-- the native module, which runs each method in a coroutine of its own, so that the calls of two
-- methods mix.
use salve_push.Base.{
  ◌≡◌, ◌≢◌, refl, ap, ◌∙◌, ap₂, true, false, bytes_eq, Option, none, some, Bytes, codes,
  bytes_eq-ne, ◌||◌,
}
use salve_push.Storage.Releases.{find, put}
use salve_push.Storage.Disk.{Json, DecodesEncoded, Disk, SalvePushState}
use salve_push.Storage.Io.{Io, World, Result, ok, thrown, died, ◌>>=◌, ◌>>◌, after}
use salve_push.Storage.Operations.{keeps, or_empty}
use salve_push.Storage.Sound.{state_of}
use salve_push.Storage.Pruned.{find-pruned_gone}
use salve_push.Storage.Calm.{calm, >>=-ok, with_bundle, installed}
use salve_push.Storage.Placed.{install_update_lem}
use salve_push.Storage.Android
use salve_push.Storage.Android.Same.{read_state-same, same_coders}

module _ (J : Json) where
  -- The coroutine of `notifyAppReady`, up to the state that it has read, and from there.
  unfoldable pub confirm_start : Io J SalvePushState
  confirm_start = Android.mark_mounted J >> Android.read_state J

  unfoldable pub confirm_end : SalvePushState → Io J (Unit {0})
  confirm_end s = Android.write_state J (record s { boot_status = codes "confirmed" })

  -- The coroutine of `installUpdate` runs between the two parts.
  unfoldable pub install_within_confirm : Bytes → Bytes → Io J (Unit {0})
  install_within_confirm id bytes = do
    s ← confirm_start
    Android.install_update J id bytes
    confirm_end s

  -- `notifyAppReady` is its two parts, one after the other, whatever fails.
  pub confirm_start-confirm_end :
      (w : World J) → Android.confirm_boot J w ≡ (confirm_start >>= confirm_end) w
  unfolding confirm_start confirm_end Android.confirm_boot
  confirm_start-confirm_end w = at (Android.mark_mounted J w)
    where
      at :
          (r : Result (Unit {0}) × World J)
          → after r (λ _. Android.read_state J >>= confirm_end)
            ≡ after (after r (λ _. Android.read_state J)) confirm_end
      at (ok a, v) = refl
      at (thrown, v) = refl
      at (died, v) = refl

  confirm_start_lem :
      (d : Disk J)
      → confirm_start (calm d) ≡ (ok (state_of d), calm (record d { mount_marker = true }))
  unfolding confirm_start Android.mark_mounted
  confirm_start_lem d = read_state-same J (record d { mount_marker = true })

  -- The disk that the two leave.
  abbrev pub overwritten : Bytes → Bytes → Disk J → Disk J
  overwritten id bytes d = record (installed J id bytes d) {
    state_text = some (J.encode (record (state_of d) { boot_status = codes "confirmed" }));
  }

  install_within_confirm_lem :
      (id bytes : Bytes) (d : Disk J)
      → install_within_confirm id bytes (calm d) ≡ (ok tt, calm (overwritten id bytes d))
  unfolding install_within_confirm confirm_end Android.write_state
  install_within_confirm_lem id bytes d =
      let mounted = record d { mount_marker = true } in
      >>=-ok confirm_start (λ s. Android.install_update J id bytes >> confirm_end s) (calm d)
        (confirm_start_lem d)
      ∙ >>=-ok (Android.install_update J id bytes) (λ _. confirm_end (state_of d)) (calm mounted)
          ((same_coders J id bytes mounted).0 ∙ install_update_lem id mounted bytes)

  keeps-others :
      (id r p : Bytes) (o : Option Bytes) → o ≡ some r → p ≢ id → p ≢ r → keeps id o p ≡ false
  keeps-others id r p o current ne ne' =
      ap (λ o. keeps id o p) current
      ∙ ap (λ b. b || bytes_eq p r) (bytes_eq-ne p id ne)
      ∙ bytes_eq-ne p r ne'

  -- Where every call works and the JSON coders read back what they wrote: on a disk whose state names
  -- the release `r` and the one before it, `p`, where `p` is neither `r` nor `id`, an installation of
  -- `id` that runs between the read and the write of the state in `notifyAppReady` returns, and so
  -- does `notifyAppReady`; but the state then names `r` and `p` again, confirmed, and the files of
  -- `p` are gone.
  pub lost_install :
      (id r p bytes : Bytes) (d : Disk J)
      → DecodesEncoded J
      → (state_of d).current_release_id ≡ some r
      → (state_of d).previous_release_id ≡ some p
      → p ≢ id
      → p ≢ r
      → (d' : Disk J) × (install_within_confirm id bytes (calm d) ≡ (ok tt, calm d'))
        × (state_of d' ≡ record {
          current_release_id = some r;
          previous_release_id = some p;
          boot_status = codes "confirmed";
        })
        × (find p d'.releases ≡ none)
  lost_install id r p bytes d law current previous ne ne' =
      let rs = put id (with_bundle bytes) d.releases in
      (
        overwritten id bytes d,
        install_within_confirm_lem id bytes d,
        ap or_empty (law (record (state_of d) { boot_status = codes "confirmed" }))
            ∙ ap₂
                (λ c q. record {
                  current_release_id = c;
                  previous_release_id = q;
                  boot_status = codes "confirmed";
                })
                current previous,
        find-pruned_gone id (state_of d).current_release_id p rs
            (keeps-others id r p (state_of d).current_release_id current ne ne'),
      )

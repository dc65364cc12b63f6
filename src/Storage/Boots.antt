-- ===== src/Storage/Boots.antt =====
-- From an installation to the launch behind it, without a crash in between.
use salve_push.Base.{◌≡◌, refl, ap, ◌∙◌, Option, none, some, Bytes}
use salve_push.Storage.Releases.{find, put, find-put_self}
use salve_push.Storage.Disk.{Json, DecodesEncoded, Disk, bundle_of, is_some}
use salve_push.Storage.Io.{ok, ◌>>=◌}
use salve_push.Storage.Operations.{
  or_empty, read_state, pending_state, process_crash_marker, process_crash_marker_if_present,
  resolve_release, resolve_bundle_path, install_update,
}
use salve_push.Storage.Sound.{state_of}
use salve_push.Storage.Pruned.{names_of, find-pruned_kept}
use salve_push.Storage.Calm.{calm, >>=-ok, read_state_lem, with_bundle, installed}
use salve_push.Storage.Placed.{install_update_lem}
use salve_push.Storage.Recovery.{keeps_self, resolve_release_lem}

module _ (J : Json) where
  pub no_marker :
      (d : Disk J)
      → d.crash_marker ≡ none
      → process_crash_marker_if_present J (calm d) ≡ (ok tt, calm d)
  unfolding process_crash_marker_if_present process_crash_marker
  no_marker d = at d.crash_marker
    where
      at :
          (o : Option Bytes)
          → o ≡ none
          → process_crash_marker_if_present J (calm (record d { crash_marker = o }))
            ≡ (ok tt, calm (record d { crash_marker = o }))
      at none e = refl
      at (some contents) e = cc e

  -- The bytes that were installed are those of the release.
  installed_bundle :
      (id bytes : Bytes) (d : Disk J)
      → find id (installed J id bytes d).releases ≡ some (with_bundle bytes)
  installed_bundle id bytes d =
      let previous = (state_of d).current_release_id in
      let rs = put id (with_bundle bytes) d.releases in
      find-pruned_kept id previous (names_of rs) id rs (keeps_self J id previous)
      ∙ find-put_self id (with_bundle bytes) d.releases

  -- Where every call works and the JSON coders read back what they wrote: a release is installed on
  -- a disk without a crash marker. The next launch boots it, and its bundle has the bytes that were
  -- installed.
  pub install_then_launch :
      (id bytes : Bytes) (d : Disk J)
      → DecodesEncoded J
      → d.crash_marker ≡ none
      → (d' : Disk J) × (install_update J id bytes (calm d) ≡ (ok tt, calm d'))
        × (resolve_bundle_path J (calm d') ≡ (ok (some id), calm d'))
        × (bundle_of (find id d'.releases) ≡ some bytes)
  unfolding resolve_bundle_path
  install_then_launch id bytes d law unmarked =
      let d' = installed J id bytes d in
      let bundle = installed_bundle id bytes d in
      (
        d',
        install_update_lem id d bytes,
        >>=-ok (process_crash_marker_if_present J)
              (λ _. read_state J >>= (λ s. resolve_release J s.current_release_id)) (calm d')
              (no_marker d' unmarked)
            ∙ >>=-ok (read_state J) (λ s. resolve_release J s.current_release_id) (calm d')
                (read_state_lem J d')
            ∙ ap (λ o. resolve_release J (or_empty o).current_release_id (calm d'))
                (law (pending_state id (state_of d)))
            ∙ resolve_release_lem J (some id) d' (ap (λ o. is_some (bundle_of o)) bundle),
        ap bundle_of bundle,
      )

-- ===== src/Storage/Placed.antt =====
-- `installUpdate` where every call works: the bundle takes its place, whatever was there before.
use salve_push.Base.{◌≡◌, refl, ap, ◌∙◌, Option, none, some, Bytes, if◌then◌else◌}
use salve_push.Storage.Releases.{Release, find, put, find-put_self, put-put}
use salve_push.Storage.Disk.{
  Json, Disk, bundle_of, is_some, create_release_directory, write_temp, remove_bundle, move_temp,
  with_release, created, temp_written, bundle_removed, temp_moved,
}
use salve_push.Storage.Io.{ok, Io, pure, change, stored, ◌>>=◌, ◌>>◌}
use salve_push.Storage.Operations.{read_state, replace_bundle, switch_release, install_update}
use salve_push.Storage.Sound.{state_of}
use salve_push.Storage.Calm.{
  calm, >>=-ok, read_state_lem, with_bundle, installed, switch_release_lem,
}

module _ {J : Json} (id : Bytes) (d : Disk J) where
  -- The disk with the content `r` for the release `id`.
  abbrev pub placed : Release → Disk J
  placed r = record d { releases = put id r d.releases }

  -- A call on a content that was put before leaves no trace of that content.
  on_placed :
      (g : Option Release → Option Release) (r : Release)
      → with_release id (placed r) (g (find id (placed r).releases))
        ≡ with_release id d (g (some r))
  on_placed g r =
      ap (λ o. with_release id (placed r) (g o)) (find-put_self id r d.releases)
      ∙ again (g (some r))
    where
      again : (o : Option Release) → with_release id (placed r) o ≡ with_release id d o
      again none = refl
      again (some r') = ap (λ rs. some (record d { releases = rs })) (put-put id r' r d.releases)

  pub with_release-placed :
      (g : Option Release → Option Release) (r r' : Release)
      → g (some r) ≡ some r'
      → with_release id (placed r) (g (find id (placed r).releases)) ≡ some (placed r')
  with_release-placed g r r' e = on_placed g r ∙ ap (with_release id d) e

  pub changed :
      (g : Option Release → Option Release) (r r' : Release)
      → g (some r) ≡ some r'
      → stored (with_release id (placed r) (g (find id (placed r).releases))) (calm (placed r))
        ≡ (ok tt, calm (placed r'))
  changed g r r' e = ap (λ o. stored o (calm (placed r))) (with_release-placed g r r' e)

  pub create_lem :
      (o : Option Release) → (r : Release) × (with_release id d (created o) ≡ some (placed r))
  create_lem none = (record { bundle = none; temp = none }, refl)
  create_lem (some r) = (r, refl)

  replace_bundle_lem :
      (bytes : Bytes) (old : Option Bytes)
      → replace_bundle J id (calm (placed (record { bundle = old; temp = some bytes })))
        ≡ (ok tt, calm (placed (with_bundle bytes)))
  unfolding replace_bundle
  replace_bundle_lem bytes none =
      let r : Release = record { bundle = none; temp = some bytes } in
      ap
        (λ b.
          ((if b then change (remove_bundle id) else pure tt) >> change (move_temp id))
            (calm (placed r)))
        (ap (λ o. is_some (bundle_of o)) (find-put_self id r d.releases))
      ∙ changed temp_moved r (with_bundle bytes) refl
  replace_bundle_lem bytes (some old) =
      let r : Release = record { bundle = some old; temp = some bytes } in
      let r' : Release = record { bundle = none; temp = some bytes } in
      ap
        (λ b.
          ((if b then change (remove_bundle id) else pure tt) >> change (move_temp id))
            (calm (placed r)))
        (ap (λ o. is_some (bundle_of o)) (find-put_self id r d.releases))
      ∙ >>=-ok (change (remove_bundle id)) (λ _. change (move_temp id)) (calm (placed r))
          (changed bundle_removed r r' refl)
      ∙ changed temp_moved r' (with_bundle bytes) refl

  -- Where every call works, an installation returns. The state names the release, with its boot
  -- pending, and the release before; the mount marker is gone; the release has its bundle and no
  -- temporary file; and all releases but these two are removed.
  pub install_update_lem :
      (bytes : Bytes) → install_update J id bytes (calm d) ≡ (ok tt, calm (installed J id bytes d))
  unfolding install_update
  install_update_lem bytes =
      let (r, e) = create_lem (find id d.releases) in
      let finish : Io J (Unit {0}) = read_state J >>= switch_release J id in
      >>=-ok (change (create_release_directory id))
        (λ _. change (write_temp id bytes) >> (replace_bundle J id >> finish)) (calm d)
        (ap (λ o. stored o (calm d)) e)
      ∙ >>=-ok (change (write_temp id bytes)) (λ _. replace_bundle J id >> finish) (calm (placed r))
          (changed (temp_written bytes) r (record r { temp = some bytes }) refl)
      ∙ >>=-ok (replace_bundle J id) (λ _. finish) _ (replace_bundle_lem bytes r.bundle)
      ∙ >>=-ok (read_state J) (switch_release J id) _
          (read_state_lem J (placed (with_bundle bytes)))
      ∙ switch_release_lem J id (state_of d) (placed (with_bundle bytes))

-- ===== src/Storage/Calm.antt =====
-- The operations where every call works.
use salve_push.Base.{
  ◌≡◌, refl, ap, ◌∙◌, Bool, true, false, Option, none, some, List, [], ◌∷◌, Bytes, if◌then◌else◌,
}
use salve_push.Storage.Releases.{Release, put, remove}
use salve_push.Storage.Disk.{Json, Disk, SalvePushState, remove_release}
use salve_push.Storage.Io.{World, ok, Io, after, change, ◌>>=◌, ◌>>◌, try_ignored}
use salve_push.Storage.Operations.{
  decoded, read_state, write_state, keeps, prune_entries, prune_old_releases, pending_state,
  switch_release, clear_mounted_marker, rolled_back, roll_back_to, rollback_to_previous,
  mark_mounted,
}
use salve_push.Storage.Sound.{state_of}
use salve_push.Storage.Pruned.{pruned, names_of}

-- The release with its bundle, and no temporary file.
abbrev pub with_bundle : Bytes → Release
with_bundle bytes = record { bundle = some bytes; temp = none }

module _ {J : Json} where
  abbrev pub calm : Disk J → World J
  calm d = record { disk = d; events = [] }

  -- A step that returns is followed by the rest.
  pub >>=-ok :
      {A B : Type 0} (m : Io J A) (f : A → Io J B) (w : World J) {a : A} {v : World J}
      → m w ≡ (ok a, v)
      → (m >>= f) w ≡ f a v
  >>=-ok m f w e = ap (λ r. after r f) e

module _ (J : Json) where
  pub read_state_lem : (d : Disk J) → read_state J (calm d) ≡ (ok (state_of d), calm d)
  unfolding read_state
  read_state_lem d = at d.state_text
    where
      at :
          (o : Option J.Text)
          → read_state J (calm (record d { state_text = o }))
            ≡ (ok (decoded J o), calm (record d { state_text = o }))
      at none = refl
      at (some text) = refl

  -- The disk after a rollback to `previous`.
  abbrev pub returned_to : Bytes → Disk J → Disk J
  returned_to previous d = record d {
    state_text = some (J.encode (rolled_back previous));
    mount_marker = true;
  }

  abbrev pub rolled : Option Bytes → Disk J → Disk J
  rolled none d = d
  rolled (some previous) d = returned_to previous d

  roll_back_to_lem :
      (o : Option Bytes) (d : Disk J) → roll_back_to J o (calm d) ≡ (ok tt, calm (rolled o d))
  unfolding roll_back_to write_state mark_mounted
  roll_back_to_lem none d = refl
  roll_back_to_lem (some previous) d = refl

  pub rollback_to_previous_lem :
      (d : Disk J)
      → rollback_to_previous J (calm d) ≡ (ok tt, calm (rolled (state_of d).previous_release_id d))
  unfolding rollback_to_previous
  rollback_to_previous_lem d =
      >>=-ok (read_state J) (λ s. roll_back_to J s.previous_release_id) (calm d) (read_state_lem d)
      ∙ roll_back_to_lem (state_of d).previous_release_id d

  prune_entries_lem :
      (id : Bytes) (previous : Option Bytes) (names : List Bytes) (d : Disk J)
      → prune_entries J id previous names (calm d)
        ≡ (ok tt, calm (record d { releases = pruned id previous names d.releases }))
  unfolding prune_entries
  prune_entries_lem id previous [] d = refl
  prune_entries_lem id previous (name ∷ rest) d =
      at (keeps id previous name) (λ d'. prune_entries_lem id previous rest d')
    where
      at :
          (b : Bool)
          → ((d' : Disk J)
              → prune_entries J id previous rest (calm d')
                ≡ (ok tt, calm (record d' { releases = pruned id previous rest d'.releases })))
          → (if b
                then prune_entries J id previous rest
                else (try_ignored (change (remove_release name))
                    >> prune_entries J id previous rest))
              (calm d)
            ≡ (
              ok tt,
              calm (record d {
                releases =
                    pruned id previous rest (if b then d.releases else remove name d.releases);
              }),
            )
      at true next = next d
      at false next = next (record d { releases = remove name d.releases })

  -- The disk after an installation.
  abbrev pub installed : Bytes → Bytes → Disk J → Disk J
  installed id bytes d =
      let rs = put id (with_bundle bytes) d.releases in
      record d {
        state_text = some (J.encode (pending_state id (state_of d)));
        mount_marker = false;
        releases = pruned id (state_of d).current_release_id (names_of rs) rs;
      }

  pub switch_release_lem :
      (id : Bytes) (s : SalvePushState) (d : Disk J)
      → switch_release J id s (calm d) ≡ (
        ok tt,
        calm (record d {
          state_text = some (J.encode (pending_state id s));
          mount_marker = false;
          releases = pruned id s.current_release_id (names_of d.releases) d.releases;
        }),
      )
  unfolding switch_release write_state clear_mounted_marker prune_old_releases
  switch_release_lem id s d = at d.mount_marker
    where
      at :
          (b : Bool)
          → switch_release J id s (calm (record d { mount_marker = b })) ≡ (
            ok tt,
            calm (record d {
              state_text = some (J.encode (pending_state id s));
              mount_marker = false;
              releases = pruned id s.current_release_id (names_of d.releases) d.releases;
            }),
          )
      at true =
          prune_entries_lem id s.current_release_id (names_of d.releases)
            (record d { state_text = some (J.encode (pending_state id s)); mount_marker = false })
      at false =
          prune_entries_lem id s.current_release_id (names_of d.releases)
            (record d { state_text = some (J.encode (pending_state id s)); mount_marker = false })

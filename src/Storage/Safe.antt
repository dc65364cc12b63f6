-- ===== src/Storage/Safe.antt =====
-- Whatever fails, and whenever the process dies, the operations keep the disk sound.
use mathlib.Core.Path.{subst}
use salve_push.Base.{
  codes, bytes_eq-false, arith, ◌≡◌, ◌≢◌, sym, Bool, true, false, Option, none, some, Bytes,
  if◌then◌else◌,
}
use salve_push.Storage.Releases.{Release, find, find-remove_ne}
use salve_push.Storage.Disk.{
  Json, Disk, bundle_exists, remove_bundle, move_temp, remove_release, bundle_removed, temp_moved,
  with_release,
}
use salve_push.Storage.Io.{World, pure, change, read, try_optional}
use salve_push.Storage.Holds.{
  Holds, Gives, Gives-and, Gives-weaken, Holds->>=, Holds-change, Holds-read, Holds-try_optional,
}
use salve_push.Storage.Operations.{decoded, read_state, replace_bundle, keeps}
use salve_push.Storage.Sound.{
  state_of, HasBundle, Names, IsSound, Differs, IsNew, Elsewhere, with_release-Elsewhere,
  move_temp-bundle_exists, Elsewhere-IsSound,
}

module _ (J : Json) where
  -- The state that an operation reads is the one on the disk, or the empty one if it cannot be
  -- read, and a sound disk has the bundles that it names.
  pub read_state-Names :
      (P : Disk J → Type 0) (w : World J)
      → ((d : Disk J) → P d → IsSound d)
      → P w.disk
      → Holds (λ s d. P d × Names s d) P (read_state J w)
  unfolding read_state
  read_state-Names P w f h =
      Holds->>= (λ text d. P d × Names (decoded J text) d) (λ s d. P d × Names s d) P
        (try_optional (read (λ d. d.state_text))) (λ text. pure (decoded J text)) w
        (Holds-try_optional (λ text d. P d × Names (decoded J (some text)) d) P
          (λ text d. P d × Names (decoded J text) d) (read (λ d. d.state_text)) w (λ _ _ p. p)
          (λ d p. (p, (tt, tt)))
          (Holds-read (λ text d. P d × Names (decoded J (some text)) d) P (λ d. d.state_text) w h
            (λ text e. (h, subst (λ t. Names (decoded J t) w.disk) e (f w.disk h)))))
        (λ text v p. p)

  -- A call on the directory of a release that the state does not name.
  pub aside :
      (id : Bytes) (o : Option Release) (d : Disk J)
      → IsSound d × IsNew id d
      → Gives (λ d'. IsSound d' × IsNew id d') (with_release id d o)
  aside id o d h =
      Gives-weaken (Elsewhere id d) (λ d'. IsSound d' × IsNew id d') (with_release id d o)
        (λ d' same. Elsewhere-IsSound id d d' same h) (with_release-Elsewhere id d o)

  -- A result on a sound disk on which `id` has its bundle, where nothing else was promised.
  abbrev pub IsPlaced : Bytes → Disk J → Type 0
  IsPlaced id d = IsSound d × (bundle_exists id d ≡ true)

  abbrev pub IsOpen : Bytes → Disk J → Type 0
  IsOpen id d = IsSound d × IsNew id d

  old_bundle-Holds :
      (id : Bytes) (exists : Bool) (w : World J)
      → IsOpen id w.disk
      → Holds (λ _. IsOpen id) IsSound ((if exists then change (remove_bundle id) else pure tt) w)
  old_bundle-Holds id true w h =
      Holds-change (IsOpen id) IsSound (remove_bundle id) w h.0
        (aside id (bundle_removed (find id w.disk.releases)) w.disk h)
  old_bundle-Holds id false w h = h

  move_temp-IsPlaced :
      (id : Bytes) (d : Disk J) → IsOpen id d → Gives (IsPlaced id) (move_temp id d)
  move_temp-IsPlaced id d h =
      Gives-weaken (λ d'. IsOpen id d' × (bundle_exists id d' ≡ true)) (IsPlaced id)
        (move_temp id d) (λ d' p. (p.0.0, p.1))
        (Gives-and (IsOpen id) (λ d'. bundle_exists id d' ≡ true) (move_temp id d)
          (aside id (temp_moved (find id d.releases)) d h) (move_temp-bundle_exists id d))

  pub replace_bundle-Holds :
      (id : Bytes) (w : World J)
      → IsOpen id w.disk
      → Holds (λ _. IsPlaced id) IsSound (replace_bundle J id w)
  unfolding replace_bundle
  replace_bundle-Holds id w h =
      Holds->>= (λ _. IsOpen id) (λ _. IsPlaced id) IsSound
        (if bundle_exists id w.disk then change (remove_bundle id) else pure tt)
        (λ _. change (move_temp id)) w (old_bundle-Holds id (bundle_exists id w.disk) w h)
        (λ _ v p.
          Holds-change (IsPlaced id) IsSound (move_temp id) v p.0 (move_temp-IsPlaced id v.disk p))

  -- The disk behind the new state: it names `id` and `previous`, and both have their bundles.
  pub record IsSwitched (id : Bytes) (previous : Option Bytes) (d : Disk J) : Type 0 where
    pub current : (state_of d).current_release_id ≡ some id
    pub before : (state_of d).previous_release_id ≡ previous
    pub status : (state_of d).boot_status ≡ codes "pending"
    pub bundle : bundle_exists id d ≡ true
    pub previous_bundle : HasBundle previous d

  pub switched-IsSound :
      (id : Bytes) (previous : Option Bytes) (d : Disk J) → IsSwitched id previous d → IsSound d
  switched-IsSound id previous d h = (
    subst (λ o. HasBundle o d) (sym h.current) h.bundle,
    subst (λ o. HasBundle o d) (sym h.before) h.previous_bundle,
  )

  removed-HasBundle :
      (name : Bytes) (o : Option Bytes) (d : Disk J)
      → Differs name o
      → HasBundle o d
      → Gives (HasBundle o) (remove_release name d)
  removed-HasBundle name none d ne h = tt
  removed-HasBundle name (some p) d ne h = rw (find-remove_ne name p d.releases ne) h

  keeps-false :
      (id name : Bytes) (previous : Option Bytes)
      → keeps id previous name ≡ false
      → (id ≢ name) × Differs name previous
  keeps-false id name none h = (bytes_eq-false name id h, tt)
  keeps-false id name (some p) h =
      (bytes_eq-false name id (ground arith), bytes_eq-false name p (ground arith))

  pub pruned-IsSwitched :
      (id name : Bytes) (previous : Option Bytes) (d : Disk J)
      → keeps id previous name ≡ false
      → IsSwitched id previous d
      → Gives (IsSwitched id previous) (remove_release name d)
  pruned-IsSwitched id name previous d h switched =
      let (ne, differs) = keeps-false id name previous h in
      record {
        current = switched.current;
        before = switched.before;
        status = switched.status;
        bundle = rw (find-remove_ne name id d.releases ne) switched.bundle;
        previous_bundle = removed-HasBundle name previous d differs switched.previous_bundle;
      }

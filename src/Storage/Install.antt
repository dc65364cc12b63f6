-- ===== src/Storage/Install.antt =====
-- `installUpdate` from a sound disk, whatever fails on the way.
use salve_push.Base.{
  codes, ◌≡◌, refl, ap, Bool, true, false, Option, none, some, List, [], ◌∷◌, Bytes, Bool-cases,
  inl, inr, if◌then◌else◌, map,
}
use salve_push.Storage.Releases.{find}
use salve_push.Storage.Disk.{
  Json, DecodesEncoded, Disk, SalvePushState, bundle_exists, create_release_directory, write_temp,
  remove_release, write_state_text, remove_mount_marker, created, temp_written,
}
use salve_push.Storage.Io.{World, Io, change, read, ◌>>=◌, ◌>>◌, try_optional, try_ignored}
use salve_push.Storage.Holds.{
  Holds, Gives, Holds->>=, Holds-change, Holds-read, Holds-try_optional, Holds-try_change,
  Holds-weaken,
}
use salve_push.Storage.Operations.{
  or_empty, read_state, write_state, replace_bundle, pending_state, switch_release, install_update,
  keeps, prune_entries, prune_listed, prune_old_releases, clear_mounted_marker,
}
use salve_push.Storage.Sound.{same_releases-HasBundle, state_of, HasBundle, Names, IsSound, IsNew}
use salve_push.Storage.Safe.{
  read_state-Names, aside, IsPlaced, IsOpen, replace_bundle-Holds, IsSwitched, switched-IsSound,
  pruned-IsSwitched,
}

module _ (J : Json) where
  prune_entries-Holds :
      (id : Bytes) (previous : Option Bytes) (names : List Bytes) (w : World J)
      → IsSwitched J id previous w.disk
      → Holds
          (λ _. IsSwitched J id previous)
          (IsSwitched J id previous)
          (prune_entries J id previous names w)
  unfolding prune_entries
  prune_entries-Holds id previous [] w h = h
  prune_entries-Holds id previous (name ∷ rest) w h = elim (Bool-cases (keeps id previous name)) [
    | inl kept ↦ rw kept (prune_entries-Holds id previous rest w h)
    | inr not_kept ↦ rw not_kept (
        Holds->>= (λ _. IsSwitched J id previous) (λ _. IsSwitched J id previous)
          (IsSwitched J id previous) (try_ignored (change (remove_release name)))
          (λ _. prune_entries J id previous rest) w
          (Holds-try_change (IsSwitched J id previous) (remove_release name) w h
            (pruned-IsSwitched J id name previous w.disk not_kept h))
          (λ _ v p. prune_entries-Holds id previous rest v p))
  ]

  prune_listed-Holds :
      (id : Bytes) (previous : Option Bytes) (names : Option (List Bytes)) (w : World J)
      → IsSwitched J id previous w.disk
      → Holds
          (λ _. IsSwitched J id previous)
          (IsSwitched J id previous)
          (prune_listed J id previous names w)
  prune_listed-Holds id previous none w h = h
  prune_listed-Holds id previous (some names) w h = prune_entries-Holds id previous names w h

  prune_old_releases-Holds :
      (id : Bytes) (previous : Option Bytes) (w : World J)
      → IsSwitched J id previous w.disk
      → Holds
          (λ _. IsSwitched J id previous)
          (IsSwitched J id previous)
          (prune_old_releases J id previous w)
  unfolding prune_old_releases
  prune_old_releases-Holds id previous w h =
      let I = IsSwitched J id previous in
      let listing = λ (d : Disk J). some (map (λ entry. entry.0) d.releases) in
      Holds->>= (λ _. I) (λ _. I) I (try_optional (read listing)) (prune_listed J id previous) w
        (Holds-try_optional (λ _. I) I (λ _. I) (read listing) w (λ _ _ p. p) (λ _ p. p)
          (Holds-read (λ _. I) I listing w h (λ _ _. h)))
        (λ names v p. prune_listed-Holds id previous names v p)

  written-IsSwitched :
      (id : Bytes) (s : SalvePushState) (d : Disk J)
      → DecodesEncoded J
      → bundle_exists id d ≡ true
      → HasBundle s.current_release_id d
      → Gives
          (IsSwitched J id s.current_release_id)
          (write_state_text (J.encode (pending_state id s)) d)
  written-IsSwitched id s d law bundle previous =
      let decodes = law (pending_state id s) in
      record {
        current = ap (λ o. (or_empty o).current_release_id) decodes;
        before = ap (λ o. (or_empty o).previous_release_id) decodes;
        status = ap (λ o. (or_empty o).boot_status) decodes;
        bundle = bundle;
        previous_bundle = same_releases-HasBundle d _ s.current_release_id refl previous;
      }

  unmarked-IsSwitched :
      (id : Bytes) (previous : Option Bytes) (d : Disk J)
      → IsSwitched J id previous d
      → Gives (IsSwitched J id previous) (remove_mount_marker d)
  unmarked-IsSwitched id previous d h = at d.mount_marker
    where
      at :
          (b : Bool)
          → Gives
              (IsSwitched J id previous)
              (if b then some (record d { mount_marker = false }) else none)
      at true = record {
        current = h.current;
        before = h.before;
        status = h.status;
        bundle = h.bundle;
        previous_bundle = same_releases-HasBundle d _ previous refl h.previous_bundle;
      }
      at false = tt

  switch_release-Holds :
      (id : Bytes) (s : SalvePushState) (w : World J)
      → DecodesEncoded J
      → IsPlaced J id w.disk
      → Names s w.disk
      → Holds (λ _. IsSwitched J id s.current_release_id) IsSound (switch_release J id s w)
  unfolding switch_release write_state clear_mounted_marker
  switch_release-Holds id s w law placed names =
      let I = IsSwitched J id s.current_release_id in
      let rest = clear_mounted_marker J >> prune_old_releases J id s.current_release_id in
      Holds->>= (λ _. I) (λ _. I) IsSound (write_state J (pending_state id s)) (λ _. rest) w
        (Holds-change I IsSound (write_state_text (J.encode (pending_state id s))) w placed.0
          (written-IsSwitched id s w.disk law placed.1 names.0))
        (λ _ v p.
          Holds-weaken (λ _. I) (λ _. I) I IsSound (rest v) (λ _ _ q. q)
            (λ d. switched-IsSound J id s.current_release_id d)
            (Holds->>= (λ _. I) (λ _. I) I (clear_mounted_marker J)
              (λ _. prune_old_releases J id s.current_release_id) v
              (Holds-try_change I remove_mount_marker v p
                (unmarked-IsSwitched id s.current_release_id v.disk p))
              (λ _ u q. prune_old_releases-Holds id s.current_release_id u q)))

  -- The state names `id`, which has its bundle, as the current release with its boot pending.
  abbrev pub IsPending : Bytes → Disk J → Type 0
  IsPending id d =
      ((state_of d).current_release_id ≡ some id)
      × ((state_of d).boot_status ≡ codes "pending")
      × (bundle_exists id d ≡ true)

  -- Whatever fails, and whenever the process dies, if the JSON coders read back what they wrote:
  -- installing a release that the state of a sound disk does not name leaves a sound disk. If it
  -- returns, the state names the release, which has its bundle, as the current one with its boot
  -- pending.
  pub install_update-IsSound :
      (id bundle : Bytes) (w : World J)
      → DecodesEncoded J
      → IsSound w.disk
      → IsNew id w.disk
      → Holds (λ _ d. IsSound d × IsPending id d) IsSound (install_update J id bundle w)
  unfolding install_update
  install_update-IsSound id bundle w law sound new =
      let Done = λ (_ : Unit {0}) (d : Disk J). IsSound d × IsPending id d in
      let switch : SalvePushState → Io J (Unit {0}) = λ s. switch_release J id s in
      let finish = read_state J >>= switch in
      let place = replace_bundle J id >> finish in
      Holds->>= (λ _. IsOpen J id) Done IsSound (change (create_release_directory id))
        (λ _. change (write_temp id bundle) >> place) w
        (Holds-change (IsOpen J id) IsSound (create_release_directory id) w sound
          (aside J id (created (find id w.disk.releases)) w.disk (sound, new)))
        (λ _ w1 p1.
          Holds->>= (λ _. IsOpen J id) Done IsSound (change (write_temp id bundle)) (λ _. place) w1
            (Holds-change (IsOpen J id) IsSound (write_temp id bundle) w1 p1.0
              (aside J id (temp_written bundle (find id w1.disk.releases)) w1.disk p1))
            (λ _ w2 p2.
              Holds->>= (λ _. IsPlaced J id) Done IsSound (replace_bundle J id) (λ _. finish) w2
                (replace_bundle-Holds J id w2 p2)
                (λ _ w3 p3.
                  Holds->>= (λ s d. IsPlaced J id d × Names s d) Done IsSound (read_state J) switch
                    w3
                    (Holds-weaken (λ s d. IsPlaced J id d × Names s d)
                      (λ s d. IsPlaced J id d × Names s d) (IsPlaced J id) IsSound (read_state J w3)
                      (λ _ _ q. q) (λ _ q. q.0)
                      (read_state-Names J (IsPlaced J id) w3 (λ _ q. q.0) p3))
                    (λ s w4 p4.
                      Holds-weaken (λ _. IsSwitched J id s.current_release_id) Done IsSound IsSound
                        (switch s w4)
                        (λ _ d q. (
                          switched-IsSound J id s.current_release_id d q,
                          (q.current, q.status, q.bundle),
                        ))
                        (λ _ q. q) (switch_release-Holds id s w4 law p4.0 p4.1)))))

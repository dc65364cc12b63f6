-- ===== src/Storage/Lifecycle.antt =====
-- A device over time: installations, boots, confirmations and crashes in any order.
use mathlib.Core.Path.{subst}
use salve_push.Base.{
  sym, ◌⊎◌, inl, inr, ◌≡◌, refl, ap, ◌∙◌, Bool, true, false, Option, none, some, List, [], ◌∷◌, ℤ,
  Bytes, if◌then◌else◌,
}
use salve_push.Storage.Disk.{Json, DecodesEncoded, Disk}
use salve_push.Storage.Io.{Event, Result, ok, thrown, died, World}
use salve_push.Storage.Holds.{Holds, Holds-weaken}
use salve_push.Storage.Operations.{
  install_update, confirm_boot, resolve_bundle_path, rollback_to_previous_if_unconfirmed,
}
use salve_push.Storage.Sound.{state_of, IsSound, HasBundle, IsNew}
use salve_push.Storage.Install.{IsPending, install_update-IsSound}
use salve_push.Storage.Launch.{
  same_releases-Names, confirm_boot-IsSound, rollback_if_unconfirmed-IsSound,
  resolve_bundle_path-IsSound,
}
use salve_push.Storage.Calm.{calm, rolled}
use salve_push.Storage.Placed.{install_update_lem}
use salve_push.Storage.Recovery.{
  ReadsMarkers, crashed, unmarked, recovered, launch_after_crash, installed-IsSound,
}

module _ (J : Json) where
  -- The disk that an operation leaves, whether it returns, throws or dies.
  abbrev pub left_by : {A : Type 0} → Result A × World J → Disk J
  left_by (result, w) = w.disk

  -- What can happen to a device. The events of a step choose what fails, and where the process
  -- dies; a release that the state names already is installed where every call works.
  pub data Step : Disk J → Disk J → Type 0 where
    install :
        (id bundle : Bytes) (d : Disk J) (events : List Event)
        → IsNew id d
        → Step d (left_by (install_update J id bundle (record { disk = d; events = events })))
    install_again :
        (id bundle : Bytes) (d : Disk J) → Step d (left_by (install_update J id bundle (calm d)))
    launch :
        (d : Disk J) (events : List Event)
        → Step d (left_by (resolve_bundle_path J (record { disk = d; events = events })))
    confirm :
        (d : Disk J) (events : List Event)
        → Step d (left_by (confirm_boot J (record { disk = d; events = events })))
    exception :
        (d : Disk J) (events : List Event)
        → Step d
            (left_by (rollback_to_previous_if_unconfirmed J (record { disk = d; events = events })))
    crash : (d : Disk J) (n : ℤ) → Step d (crashed n d)

  pub data Reach (d : Disk J) : Disk J → Type 0 where
    here : Reach d d
    next : {e f : Disk J} → Reach d e → Step e f → Reach d f

  -- A postcondition that is the same for all endings holds of the disk that is left.
  Holds-left_by :
      {A : Type 0} (P : Disk J → Type 0) (r : Result A × World J)
      → Holds (λ _. P) P r
      → P (left_by r)
  Holds-left_by P (ok a, w) h = h
  Holds-left_by P (thrown, w) h = h
  Holds-left_by P (died, w) h = h

  module _ (law : DecodesEncoded J) where
    Step-IsSound : {d e : Disk J} → Step d e → IsSound d → IsSound e
    Step-IsSound (install id bundle d events new) h =
        let w : World J = record { disk = d; events = events } in
        Holds-left_by IsSound (install_update J id bundle w) (
          Holds-weaken (λ _ v. IsSound v × IsPending J id v) (λ _. IsSound) IsSound IsSound
            (install_update J id bundle w) (λ _ _ p. p.0) (λ _ p. p)
            (install_update-IsSound J id bundle w law h new))
    Step-IsSound (install_again id bundle d) h =
        subst (λ r. IsSound (left_by r)) (sym (install_update_lem id d bundle))
          (installed-IsSound J id bundle d law h)
    Step-IsSound (launch d events) h =
        let w : World J = record { disk = d; events = events } in
        Holds-left_by IsSound (resolve_bundle_path J w) (
          Holds-weaken (λ r v. IsSound v × HasBundle r v) (λ _. IsSound) IsSound IsSound
            (resolve_bundle_path J w) (λ _ _ p. p.0) (λ _ p. p)
            (resolve_bundle_path-IsSound J law w h))
    Step-IsSound (confirm d events) h =
        let w : World J = record { disk = d; events = events } in
        Holds-left_by IsSound (confirm_boot J w) (confirm_boot-IsSound J law w h)
    Step-IsSound (exception d events) h =
        let w : World J = record { disk = d; events = events } in
        Holds-left_by IsSound (rollback_to_previous_if_unconfirmed J w)
          (rollback_if_unconfirmed-IsSound J law w h)
    Step-IsSound (crash d n) h = same_releases-Names J law d (crashed n d) (state_of d) refl h

    -- If the JSON coders read back what they wrote: any sequence of installations, launches, boot
    -- confirmations, rollbacks after exceptions and crashes from a sound disk leads to a sound
    -- disk, whatever fails and wherever the process dies in each step. Only an installation of a
    -- release that the state names already is taken where every call works.
    pub Reach-IsSound : {d e : Disk J} → IsSound d → Reach d e → IsSound e
    Reach-IsSound h here = h
    Reach-IsSound h (next r step) = Step-IsSound step (Reach-IsSound h r)

  -- A crash on signal `n`, and the launch behind it.
  abbrev pub crash_and_launch : ℤ → Disk J → Disk J
  crash_and_launch n d = left_by (resolve_bundle_path J (calm (crashed n d)))

  -- A crash loop: each launch is followed by a crash before anything is confirmed.
  abbrev pub crash_loop : List ℤ → Disk J → Disk J
  crash_loop [] d = d
  crash_loop (n ∷ ns) d = crash_loop ns (crash_and_launch n d)

  -- A disk without a crash marker that no crash can roll back.
  abbrev IsSettled : Disk J → Type 0
  IsSettled d =
      (d.crash_marker ≡ none)
      × ((d.mount_marker ≡ true) ⊎ ((state_of d).previous_release_id ≡ none))

  recovered_settled : (d : Disk J) → IsSettled d → recovered d ≡ d
  recovered_settled d (no_marker, inl mounted) =
      ap (λ b. if b then unmarked d else rolled J (state_of d).previous_release_id (unmarked d))
        mounted
      ∙ ap (λ c. record d { crash_marker = c }) (sym no_marker)
  recovered_settled d (no_marker, inr first) =
      ap (λ o. if d.mount_marker then unmarked d else rolled J o (unmarked d)) first
      ∙ same d.mount_marker
      ∙ ap (λ c. record d { crash_marker = c }) (sym no_marker)
    where
      same : (b : Bool) → (if b then unmarked d else unmarked d) ≡ unmarked d
      same true = refl
      same false = refl

  recovered-IsSettled : (d : Disk J) → IsSettled (recovered d)
  recovered-IsSettled d = at d.mount_marker (state_of d).previous_release_id refl refl
    where
      at :
          (b : Bool) (o : Option Bytes)
          → d.mount_marker ≡ b
          → (state_of d).previous_release_id ≡ o
          → IsSettled (if b then unmarked d else rolled J o (unmarked d))
      at true o e e' = (refl, inl e)
      at false none e e' = (refl, inr e')
      at false (some p) e e' = (refl, inl refl)

  module _ (law : DecodesEncoded J) (reads : ReadsMarkers J) where
    crash_and_launch_lem : (n : ℤ) (d : Disk J) → IsSound d → crash_and_launch n d ≡ recovered d
    crash_and_launch_lem n d sound = ap left_by (launch_after_crash J n d law reads sound)

    crash_loop-settled : (ns : List ℤ) (d : Disk J) → IsSound d → IsSettled d → crash_loop ns d ≡ d
    crash_loop-settled [] d sound h = refl
    crash_loop-settled (n ∷ ns) d sound h =
        let e = crash_and_launch_lem n d sound ∙ recovered_settled d h in
        ap (crash_loop ns) e ∙ crash_loop-settled ns d sound h

    -- Where every call works, the JSON coders read back what they wrote, and the flag of a crash
    -- marker is read as the crash handler wrote it: a loop of crashes and launches from a sound
    -- disk, however long, ends in the state that its first launch makes, so that it makes at most
    -- one rollback, and the launch after one more crash boots the same release and changes
    -- nothing.
    pub crash_loop-recovered :
        (n m : ℤ) (ns : List ℤ) (d : Disk J)
        → IsSound d
        → (crash_loop (n ∷ ns) d ≡ recovered d)
          × (resolve_bundle_path J (calm (crashed m (crash_loop (n ∷ ns) d)))
              ≡ (ok (state_of (recovered d)).current_release_id, calm (recovered d)))
    crash_loop-recovered n m ns d sound =
        let once = crash_and_launch_lem n d sound in
        let still : IsSound (recovered d) =
          subst IsSound once
            (Step-IsSound law (launch (crashed n d) []) (Step-IsSound law (crash d n) sound)) in
        let settled = recovered-IsSettled d in
        let all = ap (crash_loop ns) once ∙ crash_loop-settled ns (recovered d) still settled in
        (
          all,
          ap (λ e. resolve_bundle_path J (calm (crashed m e))) all
              ∙ launch_after_crash J m (recovered d) law reads still
              ∙ ap (λ e. (ok (state_of e).current_release_id, calm e))
                  (recovered_settled (recovered d) settled),
        )

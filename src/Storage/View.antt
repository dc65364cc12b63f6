-- ===== src/Storage/View.antt =====
-- SalvePushStorage.swift on what the files mean: what each operation gives and makes of that where
-- every call works, whatever the texts of the state and of a crash marker are.
use salve_push.Base.{
  ◌≡◌, refl, sym, ap, ◌∙◌, Bool, true, false, Option, none, some, [], Bytes, codes, if◌then◌else◌,
}
use salve_push.Storage.Releases.{Releases, put, find}
use salve_push.Storage.Disk.{Json, DecodesEncoded, Disk, SalvePushState, is_some, bundle_of}
use salve_push.Storage.Io.{ok, Result, World, pure}
use salve_push.Storage.Operations.{rolled_back, pending_state, or_empty}
use salve_push.Storage.Operations
use salve_push.Storage.Sound.{state_of}
use salve_push.Storage.Pruned.{pruned, names_of}
use salve_push.Storage.Calm.{
  calm, >>=-ok, read_state_lem, with_bundle, rolled, rollback_to_previous_lem, installed,
}
use salve_push.Storage.Placed.{install_update_lem}

-- What a disk means: the state that is read, whether the boot is confirmed, the flag of a crash
-- marker, and the releases.
pub record View : Type 0 where
  pub state : SalvePushState
  pub mounted : Bool
  pub crash : Option Bool
  pub releases : Releases

abbrev pub view_installed : Bytes → Bytes → View → View
view_installed id bytes v =
    let rs = put id (with_bundle bytes) v.releases in
    record v {
      state = pending_state id v.state;
      mounted = false;
      releases = pruned id v.state.current_release_id (names_of rs) rs;
    }

abbrev pub view_confirmed : View → View
view_confirmed v = record v {
  state = record (v.state) { boot_status = codes "confirmed" };
  mounted = true;
}

abbrev pub view_rolled : Option Bytes → View → View
view_rolled none v = v
view_rolled (some previous) v = record v { state = rolled_back previous; mounted = true }

abbrev pub view_unconfirmed : Bool → View → View
view_unconfirmed true v = v
view_unconfirmed false v = view_rolled v.state.previous_release_id v

abbrev pub view_without_marker : View → View
view_without_marker v = record v { crash = none }

abbrev pub view_crashed : Option Bool → View → View
view_crashed none v = v
view_crashed (some true) v = view_rolled v.state.previous_release_id (view_without_marker v)
view_crashed (some false) v = view_without_marker v

abbrev pub view_bundle : Option Bytes → View → Option Bytes
view_bundle none v = none
view_bundle (some id) v = if is_some (bundle_of (find id v.releases)) then some id else none

abbrev pub id_or_empty : Option Bytes → Bytes
id_or_empty none = []
id_or_empty (some id) = id

module _ (J : Json) where
  abbrev flag_of : Option Bytes → Option Bool
  flag_of none = none
  flag_of (some contents) = some (J.is_auto_rollback contents)

  abbrev pub view : Disk J → View
  view d = record {
    state = state_of d;
    mounted = d.mount_marker;
    crash = flag_of d.crash_marker;
    releases = d.releases;
  }

  -- The run returns what it must, and leaves a disk that means what it must.
  abbrev pub Gives : {A : Type 0} → A → View → Result A × World J → Type 0
  Gives a v run = (d' : Disk J) × (run ≡ (ok a, calm d')) × (view d' ≡ v)

  module _ (law : DecodesEncoded J) where
    pub installed-Gives :
        (id bytes : Bytes) (d : Disk J)
        → Gives tt
            (view_installed id bytes (view d))
            (Operations.install_update J id bytes (calm d))
    installed-Gives id bytes d = (
      installed J id bytes d,
      install_update_lem id d bytes,
      ap (λ o. record (view_installed id bytes (view d)) { state = or_empty o })
          (law (pending_state id (state_of d))),
    )

    pub confirmed-Gives :
        (d : Disk J) → Gives tt (view_confirmed (view d)) (Operations.confirm_boot J (calm d))
    unfolding Operations.confirm_boot Operations.mark_mounted Operations.write_state
    confirmed-Gives d =
        let s = record (state_of d) { boot_status = codes "confirmed" } in
        let mounted = record d { mount_marker = true } in
        (
          record mounted { state_text = some (J.encode s) },
          >>=-ok (Operations.read_state J) _ (calm mounted) (read_state_lem J mounted),
          ap (λ o. record (view_confirmed (view d)) { state = or_empty o }) (law s),
        )

    rolled-view : (o : Option Bytes) (d : Disk J) → view (rolled J o d) ≡ view_rolled o (view d)
    rolled-view none d = refl
    rolled-view (some previous) d =
        ap (λ o. record (view_rolled (some previous) (view d)) { state = or_empty o })
          (law (rolled_back previous))

    rollback-Gives :
        (d : Disk J)
        → Gives tt
            (view_rolled (state_of d).previous_release_id (view d))
            (Operations.rollback_to_previous J (calm d))
    rollback-Gives d =
        let previous = (state_of d).previous_release_id in
        (rolled J previous d, rollback_to_previous_lem J d, rolled-view previous d)

    pub unconfirmed-Gives :
        (d : Disk J)
        → Gives tt
            (view_unconfirmed d.mount_marker (view d))
            (Operations.rollback_to_previous_if_unconfirmed J (calm d))
    unfolding Operations.rollback_to_previous_if_unconfirmed
    unconfirmed-Gives d = at d.mount_marker
      where
        at :
            (b : Bool)
            → Gives tt
                (view_unconfirmed b (view d))
                ((if b then pure tt else Operations.rollback_to_previous J) (calm d))
        at true = (d, refl, refl)
        at false = rollback-Gives d

    crashed-Gives :
        (d : Disk J)
        → Gives tt
            (view_crashed (flag_of d.crash_marker) (view d))
            (Operations.process_crash_marker_if_present J (calm d))
    unfolding Operations.process_crash_marker_if_present Operations.process_crash_marker
    crashed-Gives d = at d.crash_marker
      where
        asked :
            (b : Bool) (v : View)
            → let unmarked = record d { crash_marker = none } in
              view_without_marker v ≡ view unmarked
              → Gives tt
                  (view_crashed (some b) v)
                  ((if b then Operations.rollback_to_previous J else pure tt) (calm unmarked))
        asked true v e =
            let unmarked = record d { crash_marker = none } in
            let (d', run, left) = rollback-Gives unmarked in
            (d', run, left ∙ ap (λ u. view_rolled u.state.previous_release_id u) (sym e))
        asked false v e = (record d { crash_marker = none }, refl, sym e)

        at :
            (o : Option Bytes)
            → let marked = record d { crash_marker = o } in
              Gives tt
                (view_crashed (flag_of o) (view marked))
                (Operations.process_crash_marker_if_present J (calm marked))
        at none = (record d { crash_marker = none }, refl, refl)
        at (some contents) =
            asked (J.is_auto_rollback contents) (view (record d { crash_marker = some contents }))
              refl

    resolved-Gives :
        (o : Option Bytes) (d : Disk J)
        → Operations.resolve_release J o (calm d) ≡ (ok (view_bundle o (view d)), calm d)
    unfolding Operations.resolve_release
    resolved-Gives none d = refl
    resolved-Gives (some id) d = refl

    pub launched-Gives :
        (d : Disk J)
        → let v = view_crashed (flag_of d.crash_marker) (view d) in
          Gives
            (view_bundle v.state.current_release_id v)
            v
            (Operations.resolve_bundle_path J (calm d))
    unfolding Operations.resolve_bundle_path
    launched-Gives d =
        let (d', run, left) = crashed-Gives d in
        (
          d',
          >>=-ok (Operations.process_crash_marker_if_present J) _ (calm d) run
              ∙ >>=-ok (Operations.read_state J) _ (calm d') (read_state_lem J d')
              ∙ resolved-Gives (state_of d').current_release_id d'
              ∙ ap (λ v. (ok (view_bundle v.state.current_release_id v), calm d')) left,
          left,
        )

    pub current-Gives :
        (d : Disk J)
        → Gives
            (id_or_empty (state_of d).current_release_id)
            (view d)
            (Operations.get_current_release_id J (calm d))
    unfolding Operations.get_current_release_id
    current-Gives d = (
      d,
      >>=-ok (Operations.read_state J) _ (calm d) (read_state_lem J d)
          ∙ shown (state_of d).current_release_id,
      refl,
    )
      where
        shown :
            (o : Option Bytes)
            → ◌≡◌ {A = Result Bytes × World J}
                (ok (elim o [ none ↦ [] | some id ↦ id ]), calm d)
                (ok (id_or_empty o), calm d)
        shown none = refl
        shown (some id) = refl

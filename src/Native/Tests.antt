-- ===== src/Native/Tests.antt =====
-- A queue of two jobs, and an installation within a confirmation.
use salve_push.Base.{ℕ, ◌≡◌, refl, [], ◌∷◌, ◌++◌, some, none, true, Bytes, codes}
use salve_push.Storage.Releases.{find}
use salve_push.Storage.Disk.{Disk}
use salve_push.Storage.Io.{ok}
use salve_push.Storage.Sound.{state_of}
use salve_push.Storage.Calm.{calm, installed}
use salve_push.Storage.Placed.{install_update_lem}
use salve_push.Storage.Tests.{json, json-DecodesEncoded, disk, r1, r2, r3}
use salve_push.Native.{
  Module, Reach, here, next, loaded, installs, notifies, writes, returns, install, confirm,
  install_update, notify_app_ready, finished,
}
use salve_push.Native.Serial.{jobs, Runs, calls, queue-IsSerial}
use salve_push.Native.Race.{install_within_confirm, lost_install}

abbrev first_bytes : ℕ → Bytes
first_bytes n = 9 ∷ []

abbrev later_bytes : ℕ → Bytes
later_bytes n = 0 ∷ []

abbrev start : Module json
start = loaded json disk first_bytes

-- The buffer is overwritten after the call, and then the job runs.
abbrev waiting : Module json
waiting = notify_app_ready json (record (install_update json r3 0 start) { buffers = later_bytes })

abbrev half_done : Module json
half_done =
    finished json (install r3 (9 ∷ [])) (confirm ∷ []) [] true
      (calm (installed json r3 (9 ∷ []) disk)) waiting

abbrev run_queue : Reach json start half_done
unfolding install_update notify_app_ready
run_queue =
    next
      (next
        (next (next here (installs r3 0 start))
          (writes later_bytes (install_update json r3 0 start)))
        (notifies (record (install_update json r3 0 start) { buffers = later_bytes })))
      (returns (install r3 (9 ∷ [])) (confirm ∷ []) [] (calm (installed json r3 (9 ∷ []) disk))
        waiting refl (install_update_lem r3 disk (9 ∷ [])))

queue-IsSerial_example :
    (calls json run_queue ≡ jobs half_done.done ++ half_done.queue)
    × Runs json half_done.done disk half_done.disk
queue-IsSerial_example = queue-IsSerial json disk first_bytes run_queue

lost_install_example :
    (d' : Disk json) × (install_within_confirm json r3 (9 ∷ []) (calm disk) ≡ (ok tt, calm d'))
    × (state_of d' ≡ record {
      current_release_id = some r2;
      previous_release_id = some r1;
      boot_status = codes "confirmed";
    })
    × (find r1 d'.releases ≡ none)
lost_install_example =
    lost_install json r3 r2 r1 (9 ∷ []) disk json-DecodesEncoded refl refl (λ e. cc e) (λ e. cc e)

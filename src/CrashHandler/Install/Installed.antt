-- ===== src/CrashHandler/Install/Installed.antt =====
-- The process after `salve_push_install_crash_handlers`.
use mathlib.Core.Path.{subst}
use salve_push.Base.{ℕ, ◌≡◌, refl, ◌∙◌, ap, sym, if◌then◌else◌, Bytes, length, get_or}
use salve_push.CrashHandler.State.{
  Linkage, Process, Outcome, returned, >>=-returned, max_signal_number,
}
use salve_push.CrashHandler.Handler.{zero_action}
use salve_push.CrashHandler.Install.{
  signals, crash_action, crash_marker_name, mount_marker_name, set_paths, install_signals,
  install_crash_handlers,
}
use salve_push.CrashHandler.Install.Laws.{
  elem, after_signals, signals-AllInstallable, install_signals_lem, after_signals-IsOtherwise,
  dispositions-after_signals, previous_handlers-after_signals,
}
use salve_push.CrashHandler.Install.Paths.{stored_path}

-- What an installation under `base` makes of the process `p`: every one of the eight signals has
-- this file's action and its old one is stored; other signals and entries are as they were, and so
-- are files, descriptors, pending signals and past calls.
pub record IsInstalled (l : Linkage) (base : Bytes) (p q : Process) : Type 0 where
  pub actions :
      (m : ℕ)
      → q.kernel.dispositions m
        ≡ (if elem m (signals l.platform) then crash_action l else p.kernel.dispositions m)
  pub stored :
      (m : ℕ)
      → get_or q.globals.previous_handlers m zero_action ≡ (
          if elem m (signals l.platform)
          then p.kernel.dispositions m
          else get_or p.globals.previous_handlers m zero_action)
  pub size : length q.globals.previous_handlers ≡ max_signal_number
  pub crash_path : q.globals.crash_marker_path ≡ stored_path (crash_marker_name base)
  pub mount_path : q.globals.mount_marker_path ≡ stored_path (mount_marker_name base)
  pub files : q.kernel.files ≡ p.kernel.files
  pub descriptors : q.kernel.descriptors ≡ p.kernel.descriptors
  pub pending : q.kernel.pending ≡ p.kernel.pending
  pub calls : q.calls ≡ p.calls

abbrev with_paths : Bytes → Process → Process
with_paths base p = record p {
  globals = record p.globals {
    crash_marker_path = stored_path (crash_marker_name base);
    mount_marker_path = stored_path (mount_marker_name base);
  };
}

set_paths_lem : (base : Bytes) (p : Process) → set_paths base p ≡ returned tt (with_paths base p)
unfolding set_paths
set_paths_lem base p = refl

-- On both platforms, from any process whose array has its 32 entries, an installation returns: no
-- signal number is out of the array's bounds. Each of the eight signals has the new action and its
-- old one is stored under its number; other signals and entries are as they were; the paths are
-- the two names, cut to their buffers; files, descriptors, pending signals and past calls are as
-- before.
pub install_crash_handlers-IsInstalled :
    (l : Linkage) (base : Bytes) (p : Process)
    → length p.globals.previous_handlers ≡ max_signal_number
    → (q : Process) × (install_crash_handlers l base p ≡ returned tt q) × IsInstalled l base p q
unfolding install_crash_handlers
install_crash_handlers-IsInstalled l base p h =
    let all = signals-AllInstallable l.platform in
    let start = with_paths base p in
    let rest = after_signals-IsOtherwise l (signals l.platform) start all in
    (
      after_signals l (signals l.platform) start,
      >>=-returned (set_paths base) (λ _. install_signals l (signals l.platform)) p
            (set_paths_lem base p)
          ∙ install_signals_lem l (signals l.platform) start all h,
      record {
        actions = λ m. dispositions-after_signals l (signals l.platform) start m all;
        stored =
            λ m. previous_handlers-after_signals l (signals l.platform) start m zero_action all h;
        size = rest.size ∙ h;
        crash_path = rest.crash_path;
        mount_path = rest.mount_path;
        files = rest.files;
        descriptors = rest.descriptors;
        pending = rest.pending;
        calls = rest.calls;
      },
    )

result_or : Process → Outcome (Unit {0}) → Process
result_or p (returned _ q) = q
result_or p _ = p

-- So whatever process an installation returns is installed.
pub returned-IsInstalled :
    (l : Linkage) (base : Bytes) (p q : Process)
    → length p.globals.previous_handlers ≡ max_signal_number
    → install_crash_handlers l base p ≡ returned tt q
    → IsInstalled l base p q
unfolding result_or
returned-IsInstalled l base p q h e =
    let (r, e', installed) = install_crash_handlers-IsInstalled l base p h in
    subst (IsInstalled l base p) (ap (result_or p) (sym e' ∙ e)) installed

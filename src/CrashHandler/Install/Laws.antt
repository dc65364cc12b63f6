-- ===== src/CrashHandler/Install/Laws.antt =====
-- What an installation leaves: the two paths, the handlers that were there before, and the new
-- actions.
use salve_push.Base.{
  ℕ, ◌<◌, pos, ◌≡◌, refl, ap, ◌∙◌, Bool, true, false, List, [], ◌∷◌, ◌||◌, ◌==◌, arith,
  if◌then◌else◌, length, set, get_or, length-set, get_or-set_self, get_or-set_ne, lt→ltb,
}
use salve_push.Posix.Kernel.{SigAction}
use salve_push.Posix.Signals.{Platform, android, darwin, is_catchable, sigaction_set}
use salve_push.Posix.Signals.Laws.{sigaction_get-catchable, sigaction_set-catchable}
use salve_push.CrashHandler.State.{Linkage, Process, returned, >>=-returned, max_signal_number}
use salve_push.CrashHandler.Install.{
  signals, crash_action, save_previous, install_signal, install_signals,
}

abbrev pub elem : ℕ → List ℕ → Bool
elem m [] = false
elem m (n ∷ ns) = (m == n) || elem m ns

-- A signal that may be installed: it can be caught, and its number is an index of the array.
abbrev pub IsInstallable : Platform → ℕ → Type 0
IsInstallable s n = (is_catchable s (pos n) ≡ true) × (n < max_signal_number)

abbrev pub AllInstallable : Platform → List ℕ → Type 0
AllInstallable s [] = Unit
AllInstallable s (n ∷ ns) = IsInstallable s n × (elem n ns ≡ false) × AllInstallable s ns

-- The eight signals can be caught on both platforms, are all different, and index the array.
pub signals-AllInstallable : (s : Platform) → AllInstallable s (signals s)
signals-AllInstallable android = ground arith
signals-AllInstallable darwin = ground arith

-- One round of the loop.
abbrev after_signal : Linkage → ℕ → Process → Process
after_signal l n p = record p {
  kernel = sigaction_set l.platform (pos n) (crash_action l) p.kernel;
  globals = record p.globals {
    previous_handlers = set p.globals.previous_handlers n (p.kernel.dispositions n);
  };
}

abbrev pub after_signals : Linkage → List ℕ → Process → Process
after_signals l [] p = p
after_signals l (n ∷ ns) p = after_signals l ns (after_signal l n p)

save_previous_lem :
    (l : Linkage) (n : ℕ) (p : Process)
    → IsInstallable l.platform n
    → length p.globals.previous_handlers ≡ max_signal_number
    → save_previous l n p
      ≡ returned tt (record p {
        globals = record p.globals {
          previous_handlers = set p.globals.previous_handlers n (p.kernel.dispositions n);
        };
      })
save_previous_lem l n p (catchable, index) size =
    rw (sigaction_get-catchable l.platform n p.kernel catchable, save_previous)
      (rw (lt→ltb n (length p.globals.previous_handlers) (rw size index)))

install_signal_lem :
    (l : Linkage) (n : ℕ) (p : Process)
    → IsInstallable l.platform n
    → length p.globals.previous_handlers ≡ max_signal_number
    → install_signal l n p ≡ returned tt (after_signal l n p)
unfolding install_signal
install_signal_lem l n p (catchable, index) size =
    >>=-returned (save_previous l n) _ p (save_previous_lem l n p (catchable, index) size)

pub install_signals_lem :
    (l : Linkage) (ns : List ℕ) (p : Process)
    → AllInstallable l.platform ns
    → length p.globals.previous_handlers ≡ max_signal_number
    → install_signals l ns p ≡ returned tt (after_signals l ns p)
unfolding install_signals
install_signals_lem l [] p all size = refl
install_signals_lem l (n ∷ ns) p (ok, fresh, all) size =
    >>=-returned (install_signal l n) _ p (install_signal_lem l n p ok size)
    ∙ install_signals_lem l ns (after_signal l n p) all
        (length-set p.globals.previous_handlers n (p.kernel.dispositions n) ∙ size)

-- A signal on the list has the new action, and no other action changed.
pub dispositions-after_signals :
    (l : Linkage) (ns : List ℕ) (p : Process) (m : ℕ)
    → AllInstallable l.platform ns
    → (after_signals l ns p).kernel.dispositions m
      ≡ (if elem m ns then crash_action l else p.kernel.dispositions m)
dispositions-after_signals l [] p m all = refl
dispositions-after_signals l (n ∷ ns) p m (ok, fresh, all) =
    dispositions-after_signals l ns (after_signal l n p) m all
    ∙ rw (sigaction_set-catchable l.platform n (crash_action l) p.kernel ok.0) (ground arith)

-- A signal on the list has its old action stored, and no other entry changed.
pub previous_handlers-after_signals :
    (l : Linkage) (ns : List ℕ) (p : Process) (m : ℕ) (d : SigAction)
    → AllInstallable l.platform ns
    → length p.globals.previous_handlers ≡ max_signal_number
    → get_or (after_signals l ns p).globals.previous_handlers m d
      ≡ (if elem m ns then p.kernel.dispositions m else get_or p.globals.previous_handlers m d)
previous_handlers-after_signals l [] p m d all size = refl
previous_handlers-after_signals l (n ∷ ns) p m d (ok, fresh, all) size =
    previous_handlers-after_signals l ns (after_signal l n p) m d all
      (length-set p.globals.previous_handlers n (p.kernel.dispositions n) ∙ size)
    ∙ rw (sigaction_set-catchable l.platform n (crash_action l) p.kernel ok.0) (
        ground (
          arith,
          get_or-set_self p.globals.previous_handlers n (p.kernel.dispositions n) d,
          get_or-set_ne p.globals.previous_handlers n m (p.kernel.dispositions n) d,
        ))

-- The loop over the signals touches no file, descriptor, pending signal, path or past call.
pub record IsOtherwise (p q : Process) : Type 0 where
  pub files : q.kernel.files ≡ p.kernel.files
  pub descriptors : q.kernel.descriptors ≡ p.kernel.descriptors
  pub pending : q.kernel.pending ≡ p.kernel.pending
  pub crash_path : q.globals.crash_marker_path ≡ p.globals.crash_marker_path
  pub mount_path : q.globals.mount_marker_path ≡ p.globals.mount_marker_path
  pub calls : q.calls ≡ p.calls
  pub size : length q.globals.previous_handlers ≡ length p.globals.previous_handlers

pub after_signals-IsOtherwise :
    (l : Linkage) (ns : List ℕ) (p : Process)
    → AllInstallable l.platform ns
    → IsOtherwise p (after_signals l ns p)
after_signals-IsOtherwise l [] p all = record {
  files = refl;
  descriptors = refl;
  pending = refl;
  crash_path = refl;
  mount_path = refl;
  calls = refl;
  size = refl;
}
after_signals-IsOtherwise l (n ∷ ns) p (ok, fresh, all) =
    let rest = after_signals-IsOtherwise l ns (after_signal l n p) all in
    let same = sigaction_set-catchable l.platform n (crash_action l) p.kernel ok.0 in
    record {
      files = rest.files ∙ ap (λ k. k.files) same;
      descriptors = rest.descriptors ∙ ap (λ k. k.descriptors) same;
      pending = rest.pending ∙ ap (λ k. k.pending) same;
      crash_path = rest.crash_path;
      mount_path = rest.mount_path;
      calls = rest.calls;
      size = rest.size ∙ length-set p.globals.previous_handlers n (p.kernel.dispositions n);
    }

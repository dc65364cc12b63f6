-- ===== src/CrashHandler/Install/Twice.antt =====
-- A second installation stores this file's own handler as the previous one.
use salve_push.Base.{
  ℕ, zero, suc, ◌<◌, ℤ, pos, ◌≡◌, ◌≢◌, refl, ◌∙◌, true, false, arith, bit_and, ◌==◌, Bytes, length,
  get_or,
}
use salve_push.Posix.Signals.{Platform, android, darwin, sa_siginfo}
use salve_push.CrashHandler.State.{
  Linkage, Process, Action, returned, out_of_fuel, ◌>>◌, >>=-returned, >>=-congr, max_signal_number,
}
use salve_push.CrashHandler.Marker.{write_crash_marker}
use salve_push.CrashHandler.Marker.Laws.{marked, write_crash_marker_lem}
use salve_push.CrashHandler.Handler.{
  zero_action, call_previous, chain_to_previous_handler, handle_signal,
}
use salve_push.CrashHandler.Handler.Laws.{reraise}
use salve_push.CrashHandler.Install.{signals, crash_action, install_crash_handlers}
use salve_push.CrashHandler.Install.Laws.{elem}
use salve_push.CrashHandler.Install.Installed.{install_crash_handlers-IsInstalled}

siginfo_set : (s : Platform) → (bit_and (sa_siginfo s) (sa_siginfo s) == 0) ≡ false
siginfo_set android = refl
siginfo_set darwin = refl

call_previous-own :
    (l : Linkage) (own : Action (Unit {0})) (n : ℤ) (info context : ℕ) (p : Process)
    → l.handle_signal_address ≢ 0
    → call_previous l own (crash_action l) n info context p ≡ own p
unfolding call_previous
call_previous-own l own n info context p h = ground (arith, siginfo_set l.platform)

chain-own :
    (l : Linkage) (own : Action (Unit {0})) (n info context : ℕ) (p : Process)
    → n < max_signal_number
    → get_or p.globals.previous_handlers n zero_action ≡ crash_action l
    → l.handle_signal_address ≢ 0
    → chain_to_previous_handler l own (pos n) info context p ≡ own p
unfolding chain_to_previous_handler
chain-own l own n info context p small stored h =
    ground (arith, call_previous-own l own (pos n) info context p h)

-- With its own action stored, each call of `handleSignal` makes another one.
handle_signal-own :
    (l : Linkage) (fuel n info context : ℕ) (p : Process)
    → n < max_signal_number
    → get_or p.globals.previous_handlers n zero_action ≡ crash_action l
    → l.handle_signal_address ≢ 0
    → handle_signal l fuel (pos n) info context p ≡ out_of_fuel
unfolding handle_signal
handle_signal-own l zero n info context p small stored h = refl
handle_signal-own l (suc fuel) n info context p small stored h =
    let m = marked (pos n) p in
    let own = handle_signal l fuel (pos n) info context in
    >>=-returned (write_crash_marker (pos n)) _ p (write_crash_marker_lem (pos n) p (omega arith))
    ∙ >>=-congr (chain_to_previous_handler l own (pos n) info context) (λ _. out_of_fuel)
        (λ _. reraise l (pos n)) m
        (chain-own l own n info context m small stored h
          ∙ handle_signal-own l fuel n info context m small stored h)

signals-lt-max : (s : Platform) (n : ℕ) → elem n (signals s) ≡ true → n < max_signal_number
signals-lt-max android n h = ground arith
signals-lt-max darwin n h = ground arith

-- After two installations, with the same base directory or another, from a process whose array has
-- its 32 entries and with a `handleSignal` that is not at the null address, a crash on any of the
-- eight signals is handled by calls of `handleSignal` within each other, without end: no bound on
-- their depth is enough.
pub install_twice_never_ends :
    (l : Linkage) (base base' : Bytes) (p : Process) (n info context fuel : ℕ)
    → length p.globals.previous_handlers ≡ max_signal_number
    → l.handle_signal_address ≢ 0
    → elem n (signals l.platform) ≡ true
    → (r : Process) × ((install_crash_handlers l base >> install_crash_handlers l base') p
        ≡ returned tt r)
      × (handle_signal l fuel (pos n) info context r ≡ out_of_fuel)
install_twice_never_ends l base base' p n info context fuel size h on_list =
    let (q, first, installed) = install_crash_handlers-IsInstalled l base p size in
    let (r, second, again) = install_crash_handlers-IsInstalled l base' q installed.size in
    (
      r,
      >>=-returned (install_crash_handlers l base) (λ _. install_crash_handlers l base') p first
          ∙ second,
      handle_signal-own l fuel n info context r (signals-lt-max l.platform n on_list)
          (again.stored n ∙ rw on_list (installed.actions n ∙ rw on_list)) h,
    )

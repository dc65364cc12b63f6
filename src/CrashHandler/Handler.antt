-- ===== src/CrashHandler/Handler.antt =====
-- packages/sdk-react-native/cpp/salve_push_crash_handler.cpp, lines 47 to 69:
-- `chainToPreviousHandler` and `handleSignal`.
pub mod Laws
pub mod Ends
use salve_push.Base.{
  ℕ, zero, suc, ℤ, pos, negsuc, [], ◌&&◌, not, leb, ◌==◌, bit_and, if◌then◌else◌, get_or, Bool,
}
use salve_push.Posix.Kernel.{SigAction}
use salve_push.Posix.Signals.{sig_dfl, sig_ign, sa_siginfo, signal_default, raise_signal}
use salve_push.CrashHandler.State.{
  Linkage, Call, Action, max_signal_number, with_info, plain, out_of_fuel, ◌>>◌, pure, fault,
  syscall_unit, run_foreign,
}
use salve_push.CrashHandler.Marker.{write_crash_marker}

-- What a static `struct sigaction` holds before anything is stored in it.
abbrev pub zero_action : SigAction
zero_action = record { handler = 0; sa_flags = 0; sa_mask = [] }

-- The test of `sa_flags & SA_SIGINFO`.
abbrev pub takes_info : Linkage → SigAction → Bool
takes_info l action = not (bit_and action.sa_flags (sa_siginfo l.platform) == 0)

-- A call through a stored address. `own` is the call of this file's `handleSignal` with the same
-- arguments; `handleSignal` called with one argument has no meaning.
abbrev pub call_handler : Linkage → Action (Unit {0}) → Call → Action (Unit {0})
call_handler l own (with_info address n info context) p =
    if address == l.handle_signal_address
    then own p
    else run_foreign l (with_info address n info context) p
call_handler l own (plain address n) p =
    if address == l.handle_signal_address then fault p else run_foreign l (plain address n) p

-- The call that is made through a stored action, if one is.
unfoldable pub call_previous :
    Linkage → Action (Unit {0}) → SigAction → ℤ → ℕ → ℕ → Action (Unit {0})
call_previous l own previous n info context p =
    if takes_info l previous
    then (if not (previous.handler == 0)
        then call_handler l own (with_info previous.handler n info context) p
        else pure tt p)
    else if not (previous.handler == sig_dfl)
        && not (previous.handler == sig_ign)
        && not (previous.handler == 0)
    then call_handler l own (plain previous.handler n) p
    else pure tt p

unfoldable pub chain_to_previous_handler :
    Linkage → Action (Unit {0}) → ℤ → ℕ → ℕ → Action (Unit {0})
chain_to_previous_handler l own (negsuc n) info context p = pure tt p
chain_to_previous_handler l own (pos n) info context p =
    if leb max_signal_number n
    then pure tt p
    else call_previous l own (get_or p.globals.previous_handlers n zero_action) (pos n) info context
        p

-- The first argument bounds how deep `handleSignal` calls itself through a stored action.
unfoldable pub handle_signal : Linkage → ℕ → ℤ → ℕ → ℕ → Action (Unit {0})
handle_signal l zero n info context = λ _. out_of_fuel
handle_signal l (suc fuel) n info context = do
  write_crash_marker n
  chain_to_previous_handler l (handle_signal l fuel n info context) n info context
  syscall_unit (signal_default l.platform n)
  syscall_unit (raise_signal l.platform n)

-- ===== src/CrashHandler/Handler/Laws.antt =====
-- What one crash does: the marker is written, then at most one other handler is called, then the
-- signal is raised again with its default action.
use salve_push.Base.{
  ℕ, ℤ, pos, negsuc, ◌≡◌, ◌≢◌, refl, Option, none, some, ltb, ◌==◌, arith, if◌then◌else◌, get_or,
}
use salve_push.Posix.Kernel.{SigAction}
use salve_push.Posix.Signals.{sig_dfl, sig_ign, signal_default, raise_signal}
use salve_push.CrashHandler.State.{
  Linkage, Call, Process, Outcome, Action, max_signal_number, with_info, plain, ◌>>=◌, ◌>>◌, pure,
  syscall_unit, run_foreign,
}
use salve_push.CrashHandler.Marker.Laws.{marked}
use salve_push.CrashHandler.Handler.{
  zero_action, takes_info, call_previous, chain_to_previous_handler,
}

-- The call that a stored action asks for: none for `SIG_DFL` and `SIG_IGN`, and one with the
-- arguments that its flags name for a handler.
abbrev pub call_of : Linkage → SigAction → ℤ → ℕ → ℕ → Option Call
call_of l action n info context =
    if action.handler == sig_dfl
    then none
    else if takes_info l action
    then some (with_info action.handler n info context)
    else if action.handler == sig_ign
    then none
    else some (plain action.handler n)

-- The call that a crash on signal `n` owes to the handler that was installed before.
abbrev pub call_due : Linkage → Process → ℤ → ℕ → ℕ → Option Call
call_due l p (negsuc n) info context = none
call_due l p (pos n) info context =
    if ltb n max_signal_number
    then call_of l (get_or p.globals.previous_handlers n zero_action) (pos n) info context
    else none

-- The stored action for a signal is not this file's own `handleSignal`.
abbrev pub IsForeign : Linkage → Process → ℤ → Type 0
IsForeign l p (negsuc n) = Unit {0}
IsForeign l p (pos n) =
    (get_or p.globals.previous_handlers n zero_action).handler ≢ l.handle_signal_address

abbrev pub make_call : Linkage → Option Call → Action (Unit {0})
make_call l none = pure tt
make_call l (some c) = run_foreign l c

call_previous_lem :
    (l : Linkage) (own : Action (Unit {0})) (action : SigAction) (n : ℤ) (info context : ℕ)
    (p : Process)
    → action.handler ≢ l.handle_signal_address
    → call_previous l own action n info context p ≡ make_call l (call_of l action n info context) p
unfolding call_previous
call_previous_lem l own action n info context p h = ground arith

-- The handler before this one is called through its own address with this crash's arguments, or
-- nothing is done: a signal number outside the array reads nothing.
pub chain_to_previous_handler_lem :
    (l : Linkage) (own : Action (Unit {0})) (n : ℤ) (info context : ℕ) (p : Process)
    → IsForeign l p n
    → chain_to_previous_handler l own n info context p ≡ make_call l (call_due l p n info context) p
unfolding chain_to_previous_handler
chain_to_previous_handler_lem l own (negsuc n) info context p h = refl
chain_to_previous_handler_lem l own (pos n) info context p h = ground (
  arith,
  call_previous_lem l own (get_or p.globals.previous_handlers n zero_action) (pos n) info context p
      h,
)

-- The last two calls of `handleSignal`.
abbrev pub reraised : Linkage → ℤ → Process → Process
reraised l n p = record p {
  kernel = raise_signal l.platform n (signal_default l.platform n p.kernel);
}

-- `handleSignal` behind `chainToPreviousHandler`.
abbrev pub reraise : Linkage → ℤ → Action (Unit {0})
reraise l n = do
  syscall_unit (signal_default l.platform n)
  syscall_unit (raise_signal l.platform n)

-- The whole course of a crash: the marker, then the call that is due, then the signal again.
abbrev pub course : Linkage → ℤ → ℕ → ℕ → Process → Outcome (Unit {0})
course l n info context p =
    (make_call l (call_due l p n info context) >>= λ _. reraise l n) (marked n p)

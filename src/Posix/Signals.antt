-- ===== src/Posix/Signals.antt =====
-- `sigaction`, `signal` and `raise`, with the constants of the two platforms' headers.
pub mod Laws
use salve_push.Base.{
  ℕ, ℤ, pos, negsuc, Bool, false, Option, none, some, [], ◌∷◌, ◌++◌, ◌&&◌, not, ltb, ◌==◌,
  if◌then◌else◌,
}
use salve_push.Posix.Kernel.{SigAction, Kernel}

-- Android's bionic on Linux (arm64, x86-64), and iOS.
pub data Platform : Type 0 where
  android darwin : Platform

-- The signals are numbered from 1 and below `NSIG`.
abbrev pub nsig : Platform → ℕ
nsig android = 65
nsig darwin = 32

abbrev pub sigkill : ℕ
sigkill = 9

abbrev pub sigstop : Platform → ℕ
sigstop android = 19
sigstop darwin = 17

abbrev pub sigbus : Platform → ℕ
sigbus android = 7
sigbus darwin = 10

abbrev pub sigsys : Platform → ℕ
sigsys android = 31
sigsys darwin = 12

-- These have one number on both.
abbrev pub sigabrt : ℕ
sigabrt = 6

abbrev pub sigsegv : ℕ
sigsegv = 11

abbrev pub sigill : ℕ
sigill = 4

abbrev pub sigfpe : ℕ
sigfpe = 8

abbrev pub sigtrap : ℕ
sigtrap = 5

abbrev pub sigpipe : ℕ
sigpipe = 13

-- The flags of `sigaction`.
abbrev pub sa_siginfo : Platform → ℕ
sa_siginfo android = 4
sa_siginfo darwin = 64

abbrev pub sa_restart : Platform → ℕ
sa_restart android = 0x10000000
sa_restart darwin = 2

-- `SIG_DFL` and `SIG_IGN`, as handler addresses; `SIG_DFL` is the null pointer.
abbrev pub sig_dfl : ℕ
sig_dfl = 0

abbrev pub sig_ign : ℕ
sig_ign = 1

abbrev pub is_signal : Platform → ℤ → Bool
is_signal p (pos n) = ltb 0 n && ltb n (nsig p)
is_signal p (negsuc n) = false

-- `SIGKILL` and `SIGSTOP` cannot be caught.
abbrev pub is_catchable : Platform → ℤ → Bool
is_catchable p (pos n) = is_signal p (pos n) && not (n == sigkill) && not (n == sigstop p)
is_catchable p (negsuc n) = false

-- `sigaction(n, nullptr, &old)`: the action of a valid signal.
unfoldable pub sigaction_get : Platform → ℤ → Kernel → Option SigAction
sigaction_get p (pos n) k = if is_signal p (pos n) then some (k.dispositions n) else none
sigaction_get p (negsuc n) k = none

-- `sigaction(n, &action, nullptr)`
unfoldable pub sigaction_set : Platform → ℤ → SigAction → Kernel → Kernel
sigaction_set p (pos n) action k =
    if is_catchable p (pos n)
    then record k { dispositions = λ m. if m == n then action else k.dispositions m }
    else k
sigaction_set p (negsuc n) action k = k

-- The action that `signal(n, SIG_DFL)` gives a signal.
abbrev pub default_action : Platform → SigAction
default_action p = record { handler = sig_dfl; sa_flags = sa_restart p; sa_mask = [] }

-- `signal(n, SIG_DFL)`
abbrev pub signal_default : Platform → ℤ → Kernel → Kernel
signal_default p n = sigaction_set p n (default_action p)

-- `raise(n)`. In a handler of `n` the signal is blocked, so it waits until the handler returns.
unfoldable pub raise_signal : Platform → ℤ → Kernel → Kernel
raise_signal p n k = if is_signal p n then record k { pending = k.pending ++ (n ∷ []) } else k

-- ===== src/CrashHandler/Install.antt =====
-- packages/sdk-react-native/cpp/salve_push_crash_handler.cpp, lines 73 to 88:
-- `salve_push_install_crash_handlers`.
pub mod Laws
pub mod Paths
pub mod Installed
pub mod Twice
use salve_push.Base.{
  ℕ, pos, none, some, List, [], ◌∷◌, ◌++◌, ltb, if◌then◌else◌, Bytes, codes, length, set,
}
use salve_push.Posix.Kernel.{SigAction}
use salve_push.Posix.Signals.{
  Platform, sigabrt, sigsegv, sigill, sigbus, sigfpe, sigtrap, sigpipe, sigsys, sa_siginfo,
  sigaction_get, sigaction_set,
}
use salve_push.Posix.Format.{snprintf}
use salve_push.CrashHandler.State.{
  Linkage, Action, undefined, ◌>>◌, pure, set_globals, syscall_unit, path_buffer_size,
}

-- The array `signals`.
abbrev pub signals : Platform → List ℕ
signals p = sigabrt ∷ sigsegv ∷ sigill ∷ sigbus p ∷ sigfpe ∷ sigtrap ∷ sigpipe ∷ sigsys p ∷ []

-- The struct `action`.
abbrev pub crash_action : Linkage → SigAction
crash_action l = record {
  handler = l.handle_signal_address;
  sa_flags = sa_siginfo l.platform;
  sa_mask = [];
}

-- A write to `g_previous_handlers[n]`.
abbrev pub store_previous : ℕ → SigAction → Action (Unit {0})
store_previous n action p =
    if ltb n (length p.globals.previous_handlers)
    then set_globals (λ g. record g { previous_handlers = set g.previous_handlers n action }) p
    else undefined

-- `sigaction(n, nullptr, &g_previous_handlers[n])`
abbrev pub save_previous : Linkage → ℕ → Action (Unit {0})
save_previous l n p = elim (sigaction_get l.platform (pos n) p.kernel) [
  | none ↦ pure tt p
  | some action ↦ store_previous n action p
]

-- The body of the loop over `signals`.
pub install_signal : Linkage → ℕ → Action (Unit {0})
install_signal l n = do
  save_previous l n
  syscall_unit (sigaction_set l.platform (pos n) (crash_action l))

pub install_signals : Linkage → List ℕ → Action (Unit {0})
unfolding install_signal
install_signals l [] = pure tt
install_signals l (n ∷ rest) = do install_signal l n; install_signals l rest

-- The two calls of `snprintf` with "%s/crash.marker" and "%s/mount.marker".
unfoldable pub crash_marker_name : Bytes → Bytes
crash_marker_name base = base ++ codes "/crash.marker"

unfoldable pub mount_marker_name : Bytes → Bytes
mount_marker_name base = base ++ codes "/mount.marker"

pub set_paths : Bytes → Action (Unit {0})
unfolding crash_marker_name mount_marker_name
set_paths base = do
  set_globals
      (λ g. record g { crash_marker_path = (snprintf path_buffer_size (crash_marker_name base)).0 })
  set_globals
      (λ g. record g { mount_marker_path = (snprintf path_buffer_size (mount_marker_name base)).0 })

unfoldable pub install_crash_handlers : Linkage → Bytes → Action (Unit {0})
unfolding set_paths install_signals
install_crash_handlers l base = do set_paths base; install_signals l (signals l.platform)

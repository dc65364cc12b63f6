-- ===== src/CrashHandler/State.antt =====
-- packages/sdk-react-native/cpp/salve_push_crash_handler.cpp, lines 17 to 22: the globals, with the
-- process around them, and the calls that change it.
use salve_push.Base.{
  ℕ, ℤ, ◌≡◌, ap, Bytes, Bool, List, Option, none, some, [], ◌∷◌, ◌++◌, if◌then◌else◌,
}
use salve_push.Posix.Kernel.{SigAction, Kernel}
use salve_push.Posix.Signals.{Platform}

abbrev pub path_buffer_size : ℕ
path_buffer_size = 512

abbrev pub max_signal_number : ℕ
max_signal_number = 32

-- A buffer is what it holds before its NUL.
pub record Globals : Type 0 where
  pub crash_marker_path : Bytes
  pub mount_marker_path : Bytes
  pub previous_handlers : List SigAction

-- A call of a handler that this file does not define, through `sa_sigaction` or `sa_handler`: its
-- address and its arguments, where `siginfo_t*` and the context are addresses.
pub data Call : Type 0 where
  with_info : ℕ → ℤ → ℕ → ℕ → Call
  plain : ℕ → ℤ → Call

-- `calls` is the history of the calls of other handlers, the last one at the end.
pub record Process : Type 0 where
  pub kernel : Kernel
  pub globals : Globals
  pub calls : List Call

-- What the source does not fix: the platform, the address of `handleSignal`, and what the handlers
-- of others do to the system when called, where `none` means that they do not return.
pub record Linkage : Type 0 where
  pub platform : Platform
  pub handle_signal_address : ℕ
  pub foreign : Call → Kernel → Option Kernel

-- How a call ends: it returns, a handler of others takes control for good, it does what C++ leaves
-- undefined, or it makes more nested calls than the model follows.
pub data Outcome (A : Type 0) : Type 0 where
  returned : A → Process → Outcome A
  left : Process → Outcome A
  undefined : Outcome A
  out_of_fuel : Outcome A

abbrev pub Action : Type 0 → Type 0
Action A = Process → Outcome A

infixl 5 ◌>>=◌ ◌>>◌
abbrev pub ◌>>=◌ : {A B : Type 0} → Action A → (A → Action B) → Action B
◌>>=◌ m f p = elim (m p) [
  | returned a p' ↦ f a p'
  | left p' ↦ left p'
  | undefined ↦ undefined
  | out_of_fuel ↦ out_of_fuel
]

abbrev pub ◌>>◌ : {B : Type 0} → Action (Unit {0}) → Action B → Action B
m >> k = m >>= λ _. k

-- A step that returns is followed by the rest.
pub >>=-returned :
    {A B : Type 0} (m : Action A) (f : A → Action B) (p : Process) {a : A} {q : Process}
    → m p ≡ returned a q
    → (m >>= f) p ≡ f a q
>>=-returned m f p e = rw (e, ◌>>=◌)

-- Two steps that agree on a process are followed by the same.
pub >>=-congr :
    {A B : Type 0} (m m' : Action A) (f : A → Action B) (p : Process)
    → m p ≡ m' p
    → (m >>= f) p ≡ (m' >>= f) p
>>=-congr m m' f p e = ap (λ o. ((λ _. o) >>= f) p) e

abbrev pub pure : {A : Type 0} → A → Action A
pure a p = returned a p

abbrev pub gets : {A : Type 0} → (Process → A) → Action A
gets f p = returned (f p) p

abbrev pub fault : Action (Unit {0})
fault p = undefined

abbrev pub when : Bool → Action (Unit {0}) → Action (Unit {0})
when b m p = if b then m p else returned tt p

-- A system call, with and without a result that is used.
abbrev pub syscall : {A : Type 0} → (Kernel → A × Kernel) → Action A
syscall f p = let (a, k) = f p.kernel in returned a (record p { kernel = k })

pub syscall-eq :
    {A : Type 0} (f : Kernel → A × Kernel) (p : Process) {a : A} {k : Kernel}
    → f p.kernel ≡ (a, k)
    → syscall f p ≡ returned a (record p { kernel = k })
syscall-eq f p e = ap (λ r. returned r.0 (record p { kernel = r.1 })) e

abbrev pub syscall_unit : (Kernel → Kernel) → Action (Unit {0})
syscall_unit f p = returned tt (record p { kernel = f p.kernel })

abbrev pub set_globals : (Globals → Globals) → Action (Unit {0})
set_globals f p = returned tt (record p { globals = f p.globals })

abbrev pub logged : Call → Process → Process
logged c p = record p { calls = p.calls ++ (c ∷ []) }

abbrev pub run_foreign : Linkage → Call → Action (Unit {0})
run_foreign l c p = elim (l.foreign c p.kernel) [
  | none ↦ left (logged c p)
  | some k ↦ returned tt (record (logged c p) { kernel = k })
]

-- ===== src/Posix/Kernel.antt =====
-- What the operating system keeps for the process: its files, descriptors and signal state.
use salve_push.Base.{ℕ, ℤ, Bytes, Bool, Option, List}

-- A path, as the bytes of a C string before its NUL.
abbrev pub FilePath : Type 0
FilePath = Bytes

pub record Node : Type 0 where
  pub contents : Bytes
  pub mode : ℕ

-- `struct sigaction`. `sa_handler` and `sa_sigaction` share one word, the address of the handler.
pub record SigAction : Type 0 where
  pub handler : ℕ
  pub sa_flags : ℕ
  pub sa_mask : List ℤ

-- `readable` and `creatable` are the permissions: whether an existing file may be opened for
-- reading, and whether a path may be opened for writing or created. `room` is the number of bytes
-- that the device still takes. A slot of `descriptors` is the open file with that number, or free.
-- `pending` holds the signals that the process has raised and that wait for delivery.
pub record Kernel : Type 0 where
  pub files : FilePath → Option Node
  pub readable : FilePath → Bool
  pub creatable : FilePath → Bool
  pub room : ℕ
  pub descriptors : List (Option FilePath)
  pub dispositions : ℕ → SigAction
  pub pending : List ℤ

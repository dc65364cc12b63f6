-- ===== src/Posix/Files.antt =====
-- `open`, `write` and `close`.
pub mod Laws
use salve_push.Base.{
  ℕ, suc, ◌-◌, Option, none, some, List, [], ◌∷◌, ◌++◌, if◌then◌else◌, Bytes, bytes_eq, length,
  get_or, set, take,
}
use salve_push.Posix.Kernel.{FilePath, Node, Kernel}

-- The files after `path` got a new node.
abbrev pub update : FilePath → Node → (FilePath → Option Node) → FilePath → Option Node
update path node files q = if bytes_eq q path then some node else files q

-- The lowest free slot.
unfoldable pub find_free : List (Option FilePath) → Option ℕ
find_free [] = none
find_free (none ∷ slots) = some 0
find_free (some _ ∷ slots) = elim (find_free slots) [ none ↦ none | some i ↦ some (suc i) ]

abbrev pub with_slot : ℕ → Option FilePath → Kernel → Kernel
with_slot fd slot k = record k { descriptors = set k.descriptors fd slot }

-- `open(path, O_RDONLY)`; `none` is a negative result.
unfoldable pub open_read : FilePath → Kernel → Option ℕ × Kernel
open_read path k = elim (k.files path) [
  | none ↦ (none, k)
  | some _ ↦
      if k.readable path
      then elim (find_free k.descriptors) [
        | none ↦ (none, k)
        | some fd ↦ (some fd, with_slot fd (some path) k)
      ]
      else (none, k)
]

-- A file that exists keeps its mode.
abbrev pub kept_mode : Option Node → ℕ → ℕ
kept_mode none mode = mode
kept_mode (some node) mode = node.mode

abbrev truncated : Option Node → ℕ → Node
truncated old mode = record { contents = []; mode = kept_mode old mode }

-- `open(path, O_CREAT | O_WRONLY | O_TRUNC, mode)`.
unfoldable pub open_truncate : FilePath → ℕ → Kernel → Option ℕ × Kernel
open_truncate path mode k =
    if k.creatable path
    then elim (find_free k.descriptors) [
      | none ↦ (none, k)
      | some fd ↦ (
        some fd,
        with_slot fd (some path)
            (record k { files = update path (truncated (k.files path) mode) k.files }),
      )
    ]
    else (none, k)

abbrev append_node : FilePath → Bytes → Kernel → Kernel
append_node path bytes k = elim (k.files path) [
  | none ↦ k
  | some node ↦ record k {
    files = update path (record node { contents = node.contents ++ take k.room bytes }) k.files;
    room = k.room - length (take k.room bytes);
  }
]

-- `write(fd, bytes, length)` at the end of the file: as many bytes as the device takes.
unfoldable pub write_file : ℕ → Bytes → Kernel → Kernel
write_file fd bytes k = elim (get_or k.descriptors fd none) [
  | none ↦ k
  | some path ↦ append_node path bytes k
]

unfoldable pub close_file : ℕ → Kernel → Kernel
close_file fd k = with_slot fd none k

-- ===== src/Posix/Files/Laws.antt =====
-- Opening and closing a file leaves no trace, and a marker written to a truncated file replaces it.
use mathlib.Core.Path.{fun_ext}
use salve_push.Base.{
  ℕ, zero, suc, ◌-◌, ◌≡◌, ◌⊎◌, refl, ap, ap₂, ◌∙◌, Bool, true, false, Option, none, some,
  Option-cases, Bool-cases, inl, inr, List, [], ◌∷◌, ◌++◌, ◌&&◌, arith, Bytes, length, get_or, set,
  take,
}
use salve_push.Posix.Kernel.{FilePath, Node, Kernel}
use salve_push.Posix.Files.{
  update, find_free, with_slot, open_read, open_truncate, kept_mode, truncated, append_node,
  write_file, close_file,
}

abbrev pub exists {ℓ} : {A : Type ℓ} → Option A → Bool
exists none = false
exists (some _) = true

-- When each `open` succeeds.
abbrev pub can_open_read : FilePath → Kernel → Bool
can_open_read path k = exists (k.files path) && k.readable path && exists (find_free k.descriptors)

abbrev pub can_open_truncate : FilePath → Kernel → Bool
can_open_truncate path k = k.creatable path && exists (find_free k.descriptors)

-- A slot that was free, taken and freed again.
pub set-set_free :
    (slots : List (Option FilePath)) (i : ℕ) (slot : Option FilePath)
    → find_free slots ≡ some i
    → set (set slots i slot) i none ≡ slots
unfolding find_free
set-set_free [] i slot h = refl
set-set_free (none ∷ slots) zero slot h = refl
set-set_free (none ∷ slots) (suc i) slot h = cc
set-set_free (some q ∷ slots) zero slot h = ground arith
set-set_free (some q ∷ slots) (suc i) slot h =
    ap (λ rest. some q ∷ rest) (set-set_free slots i slot (ground arith))

pub get_or-set_free :
    (slots : List (Option FilePath)) (i : ℕ) (slot d : Option FilePath)
    → find_free slots ≡ some i
    → get_or (set slots i slot) i d ≡ slot
unfolding find_free
get_or-set_free [] i slot d h = cc
get_or-set_free (none ∷ slots) zero slot d h = refl
get_or-set_free (none ∷ slots) (suc i) slot d h = cc
get_or-set_free (some q ∷ slots) zero slot d h = refl
get_or-set_free (some q ∷ slots) (suc i) slot d h = get_or-set_free slots i slot d (ground arith)

pub update_self :
    (path : FilePath) (node : Node) (files : FilePath → Option Node)
    → update path node files path ≡ some node
update_self path node files = ground arith

pub update-update :
    (path : FilePath) (a b : Node) (files : FilePath → Option Node)
    → update path b (update path a files) ≡ update path b files
update-update path a b files = fun_ext λ q. ground arith

-- `open` for reading fails and changes nothing, or takes a slot that `close` gives back.
pub open_read-cases :
    (path : FilePath) (k : Kernel)
    → ((can_open_read path k ≡ false) × (open_read path k ≡ (none, k)))
      ⊎ ((fd : ℕ) × (can_open_read path k ≡ true)
          × (open_read path k ≡ (some fd, with_slot fd (some path) k))
          × (close_file fd (with_slot fd (some path) k) ≡ k))
unfolding open_read close_file
open_read-cases path k = elim (Option-cases (find_free k.descriptors)) [
  | inl full ↦ inl (ground arith, ground arith)
  | inr (fd, e) ↦ elim (Bool-cases (can_open_read path k)) [
    | inl can ↦ inr (
      fd,
      can,
      ground arith,
      ap (λ slots. record k { descriptors = slots }) (set-set_free k.descriptors fd (some path) e),
    )
    | inr cannot ↦ inl (cannot, ground arith)
  ]
]

-- The system after `path` was replaced by as much of `bytes` as there is room for.
abbrev pub replaced : FilePath → ℕ → Bytes → Kernel → Kernel
replaced path mode bytes k = record k {
  files =
      update path (record { contents = take k.room bytes; mode = kept_mode (k.files path) mode })
        k.files;
  room = k.room - length (take k.room bytes);
}

write_file-open :
    (fd : ℕ) (path : FilePath) (bytes : Bytes) (k : Kernel) {node : Node}
    → get_or k.descriptors fd none ≡ some path
    → k.files path ≡ some node
    → write_file fd bytes k ≡ record k {
      files = update path (record node { contents = node.contents ++ take k.room bytes }) k.files;
      room = k.room - length (take k.room bytes);
    }
unfolding write_file
write_file-open fd path bytes k slot node = rw (slot, write_file) (rw (node, append_node))

write_truncated :
    (fd : ℕ) (path : FilePath) (mode : ℕ) (bytes : Bytes) (k : Kernel)
    → find_free k.descriptors ≡ some fd
    → close_file fd (
        write_file fd bytes (
          with_slot fd
            (some path)
            (record k { files = update path (truncated (k.files path) mode) k.files })))
      ≡ replaced path mode bytes k
unfolding close_file
write_truncated fd path mode bytes k e =
    ap (close_file fd) (
      write_file-open fd path bytes _ {node = truncated (k.files path) mode}
        (get_or-set_free k.descriptors fd _ none e) (ground arith))
    ∙ ap₂
        (λ files slots. record k {
          files = files;
          room = k.room - length (take k.room bytes);
          descriptors = slots;
        })
        (update-update path _ _ k.files) (set-set_free k.descriptors fd (some path) e)

-- `open` for writing fails and changes nothing, or with a write and a `close` replaces the file.
pub open_truncate-cases :
    (path : FilePath) (mode : ℕ) (bytes : Bytes) (k : Kernel)
    → ((can_open_truncate path k ≡ false) × (open_truncate path mode k ≡ (none, k)))
      ⊎ ((fd : ℕ) × (k1 : Kernel) × (can_open_truncate path k ≡ true)
          × (open_truncate path mode k ≡ (some fd, k1))
          × (close_file fd (write_file fd bytes k1) ≡ replaced path mode bytes k))
unfolding open_truncate write_file close_file
open_truncate-cases path mode bytes k = elim (Option-cases (find_free k.descriptors)) [
  | inl full ↦ inl (ground arith, ground arith)
  | inr (fd, e) ↦ elim (Bool-cases (can_open_truncate path k)) [
    | inl can ↦ inr (
      fd,
      with_slot fd (some path)
          (record k { files = update path (truncated (k.files path) mode) k.files }),
      can,
      ground arith,
      write_truncated fd path mode bytes k e,
    )
    | inr cannot ↦ inl (cannot, ground arith)
  ]
]

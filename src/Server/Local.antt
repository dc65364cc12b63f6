-- ===== src/Server/Local.antt =====
-- server/internal/storage/local.go: bundles as files under a base directory. A path is the list of
-- its names below the base directory, the last one first, so that the tail of a path is its parent.
pub mod Laws
pub mod Refines
mod Tests
use salve_push.Base.{
  ◌==◌, ◌||◌, ℕ, Bool, true, false, Option, none, some, List, [], ◌∷◌, Bytes, codes, bytes_eq,
  bytes_discrete, ap₂, refl, if◌then◌else◌,
}

abbrev pub Location : Type 0
Location = List Bytes

-- The texts between the slashes.
abbrev pub add_char : ℕ → List Bytes → List Bytes
add_char c [] = (c ∷ []) ∷ []
add_char c (name ∷ rest) = (c ∷ name) ∷ rest

unfoldable pub split : Bytes → List Bytes
split [] = [] ∷ []
split (c ∷ rest) = let names = split rest in if c == b'/' then [] ∷ names else add_char c names

-- What a name is to `filepath.Clean`.
pub data Kind : Type 0 where
  stays goes_up goes_down : Kind

abbrev pub kind : Bytes → Kind
kind name =
    if bytes_eq name [] || bytes_eq name (codes ".")
    then stays
    else if bytes_eq name (codes "..")
    then goes_up
    else goes_down

-- `filepath.Clean` of a relative path, or `none` where that begins with `..`.
unfoldable pub walk : Location → List Bytes → Option Location
walk path [] = some path
walk path (name ∷ rest) = elim (kind name) [
  | stays ↦ walk path rest
  | goes_up ↦ elim path [ [] ↦ none | inner ∷ outer ↦ walk outer rest ]
  | goes_down ↦ walk (name ∷ path) rest
]

-- `filepath.IsLocal`, with the path that `filepath.Join` gives.
abbrev pub rooted : Bytes → Bool
rooted [] = true
rooted (c ∷ rest) = c == b'/'

unfoldable pub resolve : Bytes → Option Location
resolve key = if rooted key then none else walk [] (split key)

pub data Node : Type 0 where
  directory : Node
  file : Bytes → Node

-- The base directory itself is the empty path.
abbrev pub FileSystem : Type 0
FileSystem = Location → Option Node

pub path_discrete : Discrete Location
path_discrete [] [] = yes refl
path_discrete [] (b ∷ bs) = no (λ e. cc e)
path_discrete (a ∷ as') [] = no (λ e. cc e)
path_discrete (a ∷ as') (b ∷ bs) =
    let rest = path_discrete as' bs in
    elim (bytes_discrete a b) [
      | no ne ↦ no (λ e. ne (cc e))
      | yes same ↦ elim rest [
        | no ne ↦ no (λ e. ne (cc e))
        | yes all_same ↦ yes (ap₂ (λ x xs. x ∷ xs) same all_same)
      ]
    ]

abbrev pub with_node : Location → Node → FileSystem → FileSystem
with_node path node fs other = elim (path_discrete other path) [
  | yes e ↦ some node
  | no ne ↦ fs other
]

-- `os.MkdirAll`, which fails where a file is in the way. The parents that it has made before it fails
-- are left out.
abbrev pub make_directory : Location → FileSystem → Option FileSystem
make_directory path fs = elim (fs path) [
  | none ↦ some (with_node path directory fs)
  | some directory ↦ some fs
  | some (file content) ↦ none
]

abbrev pub then_make : Location → Option FileSystem → Option FileSystem
then_make path none = none
then_make path (some fs) = make_directory path fs

unfoldable pub make_directories : Location → FileSystem → Option FileSystem
make_directories [] fs = some fs
make_directories (name ∷ outer) fs = then_make (name ∷ outer) (make_directories outer fs)

-- `os.Create`, in a directory that is there, with what is written afterwards.
abbrev pub create_file : Location → Bytes → FileSystem → Option FileSystem
create_file path content fs = elim (fs path) [
  | none ↦ some (with_node path (file content) fs)
  | some directory ↦ none
  | some (file old) ↦ some (with_node path (file content) fs)
]

-- What happens at a `Put`: it works, a call before the copy fails, or the copy stops.
pub data PutEvent : Type 0 where
  put_works mkdir_fails create_fails : PutEvent
  copy_stops : Bytes → PutEvent

-- Whether `Put` returned no error, and the files after it.
abbrev pub created : Bool → Option FileSystem → FileSystem → Bool × FileSystem
created done none fs = (false, fs)
created done (some fs') fs = (done, fs')

abbrev pub put_in : PutEvent → Location → Bytes → FileSystem → Bool × FileSystem
put_in put_works path content fs = created true (create_file path content fs) fs
put_in mkdir_fails path content fs = (false, fs)
put_in create_fails path content fs = (false, fs)
put_in (copy_stops part) path content fs = created false (create_file path part fs) fs

abbrev pub put_made :
    PutEvent → Location → Bytes → FileSystem → Option FileSystem → Bool × FileSystem
put_made event path content fs none = (false, fs)
put_made event path content fs (some fs') = put_in event path content fs'

-- The base directory cannot be replaced by a file.
abbrev pub put_at : PutEvent → Option Location → Bytes → FileSystem → Bool × FileSystem
put_at event none content fs = (false, fs)
put_at event (some []) content fs = (false, fs)
put_at mkdir_fails (some (name ∷ outer)) content fs = (false, fs)
put_at event (some (name ∷ outer)) content fs =
    put_made event (name ∷ outer) content fs (make_directories outer fs)

unfoldable pub put : PutEvent → Bytes → Bytes → FileSystem → Bool × FileSystem
put event key content fs = put_at event (resolve key) content fs

-- A directory can be opened, but not read.
abbrev pub contents_of : Option Node → Option Bytes
contents_of none = none
contents_of (some directory) = none
contents_of (some (file content)) = some content

abbrev pub get_at : Option Location → FileSystem → Option Bytes
get_at none fs = none
get_at (some path) fs = contents_of (fs path)

-- `Get`, and the bytes that are read from what it gives; `none` where either fails.
unfoldable pub get : Bytes → FileSystem → Option Bytes
get key fs = get_at (resolve key) fs

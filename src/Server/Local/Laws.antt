-- ===== src/Server/Local/Laws.antt =====
-- A bundle is read as it was stored, other bundles stay, and no key leaves the base directory.
use salve_push.Base.{
  ◌≡◌, ◌≢◌, refl, sym, ap, ◌∙◌, Bool, true, false, Option, none, some, [], ◌∷◌, Bytes,
}
use salve_push.Server.Local.{
  Location, resolve, Node, directory, file, FileSystem, path_discrete, with_node, make_directory,
  then_make, make_directories, PutEvent, put_works, mkdir_fails, create_fails, copy_stops, created,
  put_in, put_made, put_at, put, contents_of, get_at, get,
}

with_node_self :
    (path : Location) (node : Node) (fs : FileSystem) → with_node path node fs path ≡ some node
with_node_self path node fs =
    elim (path_discrete path path)
      as (λ d. (elim d [ yes e ↦ some node | no ne ↦ fs path ]) ≡ some node) [
        | yes e ↦ refl
        | no ne ↦ absurd (ne refl)
      ]

with_node_ne :
    (path other : Location) (node : Node) (fs : FileSystem)
    → other ≢ path
    → with_node path node fs other ≡ fs other
with_node_ne path other node fs h =
    elim (path_discrete other path)
      as (λ d. (elim d [ yes e ↦ some node | no ne ↦ fs other ]) ≡ fs other) [
        | yes e ↦ absurd (h e)
        | no ne ↦ refl
      ]

-- A file that is there stays as it is.
abbrev Keeps : Location → Bytes → Option FileSystem → Type 0
Keeps path content none = Unit {0}
Keeps path content (some fs) = fs path ≡ some (file content)

make_directory-Keeps :
    (made path : Location) (content : Bytes) (fs : FileSystem)
    → fs path ≡ some (file content)
    → Keeps path content (make_directory made fs)
make_directory-Keeps made path content fs h = at (fs made) refl
  where
    at :
        (o : Option Node)
        → fs made ≡ o
        → Keeps path content (elim o [
          | none ↦ some (with_node made directory fs)
          | some directory ↦ some fs
          | some (file c) ↦ none
        ])
    at none e = with_node_ne made path directory fs (λ same. cc (e, h, same)) ∙ h
    at (some directory) e = h
    at (some (file c)) e = tt

make_directories-Keeps :
    (made path : Location) (content : Bytes) (fs : FileSystem)
    → fs path ≡ some (file content)
    → Keeps path content (make_directories made fs)
unfolding make_directories
make_directories-Keeps [] path content fs h = h
make_directories-Keeps (name ∷ rest) path content fs h =
    at (make_directories rest fs) (make_directories-Keeps rest path content fs h)
  where
    at :
        (o : Option FileSystem)
        → Keeps path content o
        → Keeps path content (then_make (name ∷ rest) o)
    at none h' = tt
    at (some fs') h' = make_directory-Keeps (name ∷ rest) path content fs' h'

-- What a `Put` leaves at its path and at another one.
abbrev Puts : Location → Bytes → FileSystem → Bool × FileSystem → Type 0
Puts path content fs (done, fs') =
    (done ≡ true → fs' path ≡ some (file content))
    × ((other : Location) (kept : Bytes)
        → other ≢ path
        → fs other ≡ some (file kept)
        → fs' other ≡ some (file kept))

create_file-Puts :
    (event : PutEvent) (path : Location) (content : Bytes) (fs fs' : FileSystem)
    → ((other : Location) (kept : Bytes)
        → fs other ≡ some (file kept)
        → fs' other ≡ some (file kept))
    → Puts path content fs (put_in event path content fs')
create_file-Puts event path content fs fs' keep = at event
  where
    stays_there :
        (text : Bytes) (other : Location) (kept : Bytes)
        → other ≢ path
        → fs other ≡ some (file kept)
        → with_node path (file text) fs' other ≡ some (file kept)
    stays_there text other kept ne h =
        with_node_ne path other (file text) fs' ne ∙ keep other kept h

    whole :
        (o : Option Node)
        → Puts path content fs (
            created true
              (elim o [
                | none ↦ some (with_node path (file content) fs')
                | some directory ↦ none
                | some (file old) ↦ some (with_node path (file content) fs')
              ])
              fs')
    whole none = ((λ _. with_node_self path (file content) fs'), stays_there content)
    whole (some directory) = ((λ e. cc e), (λ other kept ne. keep other kept))
    whole (some (file old)) = ((λ _. with_node_self path (file content) fs'), stays_there content)

    part_of :
        (part : Bytes) (o : Option Node)
        → Puts path content fs (
            created false
              (elim o [
                | none ↦ some (with_node path (file part) fs')
                | some directory ↦ none
                | some (file old) ↦ some (with_node path (file part) fs')
              ])
              fs')
    part_of part none = ((λ e. cc e), stays_there part)
    part_of part (some directory) = ((λ e. cc e), (λ other kept ne. keep other kept))
    part_of part (some (file old)) = ((λ e. cc e), stays_there part)

    at : (x : PutEvent) → Puts path content fs (put_in x path content fs')
    at put_works = whole (fs' path)
    at mkdir_fails = ((λ e. cc e), (λ other kept ne. keep other kept))
    at create_fails = ((λ e. cc e), (λ other kept ne. keep other kept))
    at (copy_stops part) = part_of part (fs' path)

nothing-Puts :
    (path : Location) (content : Bytes) (fs : FileSystem) → Puts path content fs (false, fs)
nothing-Puts path content fs = ((λ e. cc e), (λ other kept ne h. h))

put_made-Puts :
    (event : PutEvent) (name : Bytes) (rest : Location) (content : Bytes) (fs : FileSystem)
    → Puts
        (name ∷ rest)
        content
        fs
        (put_made event (name ∷ rest) content fs (make_directories rest fs))
put_made-Puts event name rest content fs =
    at (make_directories rest fs) (λ path kept h. make_directories-Keeps rest path kept fs h)
  where
    at :
        (o : Option FileSystem)
        → ((path : Location) (kept : Bytes) → fs path ≡ some (file kept) → Keeps path kept o)
        → Puts (name ∷ rest) content fs (put_made event (name ∷ rest) content fs o)
    at none keep = nothing-Puts (name ∷ rest) content fs
    at (some fs') keep = create_file-Puts event (name ∷ rest) content fs fs' keep

put_at-Puts :
    (event : PutEvent) (name : Bytes) (rest : Location) (content : Bytes) (fs : FileSystem)
    → Puts (name ∷ rest) content fs (put_at event (some (name ∷ rest)) content fs)
put_at-Puts put_works name rest content fs = put_made-Puts put_works name rest content fs
put_at-Puts mkdir_fails name rest content fs = nothing-Puts (name ∷ rest) content fs
put_at-Puts create_fails name rest content fs = put_made-Puts create_fails name rest content fs
put_at-Puts (copy_stops part) name rest content fs =
    put_made-Puts (copy_stops part) name rest content fs

contents_file :
    (o : Option Node) (content : Bytes) → contents_of o ≡ some content → o ≡ some (file content)
contents_file none content e = cc e
contents_file (some directory) content e = cc e
contents_file (some (file c)) content e = ap (λ t. some (file t)) (some_injective e)
  where
    some_injective : {a b : Bytes} → some a ≡ some b → a ≡ b
    some_injective h = cc h

-- At a key that resolves to a file's path: what a `Put` does to that file and to the others.
pub put_lem :
    (event : PutEvent) (key name content : Bytes) (rest : Location) (fs : FileSystem)
    → resolve key ≡ some (name ∷ rest)
    → ((put event key content fs).0 ≡ true → get key (put event key content fs).1 ≡ some content)
      × ((other : Bytes) (path : Location) (kept : Bytes)
          → resolve other ≡ some path
          → path ≢ name ∷ rest
          → get other fs ≡ some kept
          → get other (put event key content fs).1 ≡ some kept)
unfolding put get
put_lem event key name content rest fs e =
    let same : put event key content fs ≡ put_at event (some (name ∷ rest)) content fs =
      ap (λ o. put_at event o content fs) e in
    let (here, others) = put_at-Puts event name rest content fs in
    (
      λ done.
          ap (λ o. get_at o (put event key content fs).1) e
          ∙ ap (λ (r : Bool × FileSystem). contents_of (r.1 (name ∷ rest))) same
          ∙ ap contents_of (here (sym (ap (λ (r : Bool × FileSystem). r.0) same) ∙ done)),
      λ other path kept e' ne h.
          ap (λ o. get_at o (put event key content fs).1) e'
          ∙ ap (λ (r : Bool × FileSystem). contents_of (r.1 path)) same
          ∙ ap contents_of (
              others path kept ne
                (contents_file (fs path) kept (sym (ap (λ o. get_at o fs) e') ∙ h))),
    )

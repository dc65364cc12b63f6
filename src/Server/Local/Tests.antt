-- ===== src/Server/Local/Tests.antt =====
-- Two bundles under an empty base directory, and keys that are refused.
use salve_push.Base.{◌≡◌, refl, true, none, some, List, [], ◌∷◌, Bytes, codes, bytes_discrete}
use salve_push.Server.{storage_key, find_blob}
use salve_push.Server.Local.{
  FileSystem, put_works, resolve, split, walk, make_directories, path_discrete, put, get,
}
use salve_push.Server.Local.Refines.{IsName, Shows, put_refines}

resolve_up_test : resolve (codes "a/../../b") ≡ none
unfolding resolve split walk bytes_discrete
resolve_up_test = refl

resolve_inside_test : resolve (codes "a//./../b") ≡ some (codes "b" ∷ [])
unfolding resolve split walk bytes_discrete
resolve_inside_test = refl

abbrev empty : FileSystem
empty path = none

abbrev first : FileSystem
first = (put put_works (storage_key (codes "a")) (7 ∷ []) empty).1

abbrev second : FileSystem
second = (put put_works (storage_key (codes "b")) (8 ∷ []) first).1

abbrev blobs : List (Bytes × Bytes)
blobs = (storage_key (codes "a"), 7 ∷ []) ∷ []

a-IsName : IsName (codes "a")
unfolding bytes_discrete
a-IsName = ((refl, tt), refl)

b-IsName : IsName (codes "b")
unfolding bytes_discrete
b-IsName = ((refl, tt), refl)

empty-Shows : Shows [] empty
empty-Shows id blob named found = cc found

first-Shows : Shows blobs first
unfolding put resolve split walk make_directories path_discrete bytes_discrete
first-Shows = (put_refines put_works (codes "a") (7 ∷ []) [] empty a-IsName empty-Shows).0 refl

put_refines_example :
    ((put put_works (storage_key (codes "b")) (8 ∷ []) first).0 ≡ true
      → Shows ((storage_key (codes "b"), 8 ∷ []) ∷ blobs) second)
    × (find_blob (storage_key (codes "b")) blobs ≡ none → Shows blobs second)
put_refines_example = put_refines put_works (codes "b") (8 ∷ []) blobs first b-IsName first-Shows

second_test : get (storage_key (codes "b")) second ≡ some (8 ∷ [])
unfolding put get resolve split walk make_directories path_discrete bytes_discrete
second_test = refl

-- ===== src/Server/Local/Refines.antt =====
-- The files under the base directory stand for the blobs of the service.
use salve_push.Base.{
  ◌==◌, ◌≡◌, ◌≢◌, refl, sym, ap, ◌∙◌, true, false, none, some, List, [], ◌∷◌, ◌++◌, Bytes, codes,
  bytes_eq-ne, bytes_eq_self, bytes_discrete, if◌then◌else◌,
}
use salve_push.Server.{storage_key, find_blob}
use salve_push.Server.Local.{
  Location, stays, goes_up, goes_down, kind, add_char, split, walk, resolve, FileSystem, PutEvent,
  put, get,
}
use salve_push.Server.Local.Laws.{put_lem}

-- A text that is one name of a path, as a UUID is.
abbrev HasNoSlash : Bytes → Type 0
HasNoSlash [] = Unit {0}
HasNoSlash (c ∷ rest) = ((c == b'/') ≡ false) × HasNoSlash rest

abbrev pub IsName : Bytes → Type 0
IsName id = HasNoSlash id × (kind id ≡ goes_down)

split_name : (id rest : Bytes) → HasNoSlash id → split (id ++ (b'/' ∷ rest)) ≡ id ∷ split rest
unfolding split
split_name [] rest h = refl
split_name (c ∷ id) rest (h, hs) =
    ap (λ names. if c == b'/' then [] ∷ names else add_char c names) (split_name id rest hs)
    ∙ ap (λ b. if b then [] ∷ (id ∷ split rest) else (c ∷ id) ∷ split rest) h

abbrev bundle_path : Bytes → Location
bundle_path id = codes "bundle" ∷ id ∷ codes "releases" ∷ []

walk_down :
    (name : Bytes) (path : Location) (rest : List Bytes)
    → kind name ≡ goes_down
    → walk path (name ∷ rest) ≡ walk (name ∷ path) rest
unfolding walk
walk_down name path rest h =
    ap
      (λ k. elim k [
        | stays ↦ walk path rest
        | goes_up ↦ elim path [ [] ↦ none | inner ∷ outer ↦ walk outer rest ]
        | goes_down ↦ walk (name ∷ path) rest
      ])
      h

resolve-storage_key : (id : Bytes) → IsName id → resolve (storage_key id) ≡ some (bundle_path id)
unfolding resolve split walk bytes_discrete
resolve-storage_key id (h, plain) =
    ap (walk (codes "releases" ∷ [])) (split_name id (codes "bundle") h)
    ∙ walk_down id (codes "releases" ∷ []) (codes "bundle" ∷ []) plain

-- Bundles of two releases are two files.
bundle_path_injective : (p q : Bytes) → bundle_path p ≡ bundle_path q → p ≡ q
bundle_path_injective p q e = ap second e
  where
    second : Location → Bytes
    second [] = []
    second (a ∷ []) = []
    second (a ∷ (b ∷ rest)) = b

-- Every blob of a release is the content of its file.
abbrev pub Shows : List (Bytes × Bytes) → FileSystem → Type 0
Shows blobs fs =
    (id blob : Bytes)
    → IsName id
    → find_blob (storage_key id) blobs ≡ some blob
    → get (storage_key id) fs ≡ some blob

-- Where each blob of a release, whose id is one name of a path, is the content of its file under
-- the base directory: a `Put` for a release that returns without an error leaves files that stand
-- for the blobs with this one added, and a `Put` for one without a blob, also one that fails with
-- a part written, leaves files that still stand for the blobs.
pub put_refines :
    (event : PutEvent) (id content : Bytes) (blobs : List (Bytes × Bytes)) (fs : FileSystem)
    → IsName id
    → Shows blobs fs
    → ((put event (storage_key id) content fs).0 ≡ true
        → Shows ((storage_key id, content) ∷ blobs) (put event (storage_key id) content fs).1)
      × (find_blob (storage_key id) blobs ≡ none
          → Shows blobs (put event (storage_key id) content fs).1)
put_refines event id content blobs fs named shows =
    let key = storage_key id in
    let (here, others) =
      put_lem event key (codes "bundle") content (id ∷ codes "releases" ∷ []) fs
        (resolve-storage_key id named) in
    let fs' = (put event key content fs).1 in
    let other : (q blob : Bytes)
        → IsName q
        → storage_key q ≢ key
        → find_blob (storage_key q) blobs ≡ some blob
        → get (storage_key q) fs' ≡ some blob =
      λ q blob q_named ne found.
        others (storage_key q) (bundle_path q) blob (resolve-storage_key q q_named)
          (λ same. ne (ap storage_key (bundle_path_injective q id same)))
          (shows q blob q_named found) in
    (
      λ done q blob q_named found. elim (bytes_discrete (storage_key q) key) [
        | yes e ↦
            ap (λ k. get k fs') e
            ∙ here done
            ∙ sym (
                ap (λ b. if b then some content else find_blob (storage_key q) blobs)
                  (bytes_eq_self (storage_key q) key e))
            ∙ found
        | no ne ↦ other q blob q_named ne (
            sym (
              ap (λ b. if b then some content else find_blob (storage_key q) blobs)
                (bytes_eq-ne (storage_key q) key ne))
            ∙ found)
      ],
      λ fresh q blob q_named found. elim (bytes_discrete (storage_key q) key) [
        | yes e ↦ absurd (cc (ap (λ k. find_blob k blobs) e, fresh, found))
        | no ne ↦ other q blob q_named ne found
      ],
    )

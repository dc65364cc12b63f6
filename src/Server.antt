-- ===== src/Server.antt =====
-- server/internal/releases/releases.go: creation, publication and lookup of releases. The queries
-- are the functions that their SQL stands for; the blobs are the files of storage.Storage.
pub mod Stored
pub mod Offers
pub mod Http
pub mod Migrate
pub mod Local
mod Tests
use salve_push.Base.{
  ℕ, ltb, leb, Bool, true, false, ◌&&◌, ◌||◌, Option, none, some, List, [], ◌∷◌, ◌++◌, Bytes, codes,
  bytes_eq, length, map, if◌then◌else◌,
}

-- A row of the table; times are numbers, and `published_at` may be NULL.
pub record Release : Type 0 where
  pub id : Bytes
  pub version : Bytes
  pub platform : Bytes
  pub channel : Bytes
  pub runtime_version : Bytes
  pub bundle_hash : Bytes
  pub signature : Bytes
  pub bundle_size : ℕ
  pub bundle_storage_key : Bytes
  pub rollout_percentage : ℕ
  pub published_at : Option ℕ
  pub created_at : ℕ

pub record CreateInput : Type 0 where
  pub version : Bytes
  pub platform : Bytes
  pub channel : Bytes
  pub runtime_version : Bytes
  pub bundle_hash : Bytes
  pub signature : Bytes
  pub rollout_percentage : ℕ
  pub bundle : Bytes

pub record ListUpdatesFilter : Type 0 where
  pub channel : Bytes
  pub platform : Bytes
  pub runtime_version : Bytes

-- The errors; `failed` is one of the database or of the storage.
pub data ServiceError : Type 0 where
  hash_mismatch not_found invalid_id failed : ServiceError

pub data Answer (A : Type 0) : Type 0 where
  ok : A → Answer A
  err : ServiceError → Answer A

infixl 5 ◌>>=◌
abbrev pub ◌>>=◌ : {A B : Type 0} → Answer A → (A → Answer B) → Answer B
ok a >>= f = f a
err e >>= f = err e

-- The table and the stored bundles, the last one stored first.
pub record Service : Type 0 where
  pub rows : List Release
  pub blobs : List (Bytes × Bytes)

-- What happens at a `Put`: it works, fails without an effect, or fails with a part stored.
pub data PutEvent : Type 0 where
  put_works put_fails : PutEvent
  put_stops : Bytes → PutEvent

-- What happens at an `INSERT` or an `UPDATE`: it works, fails without an effect, or takes effect and
-- its answer is lost.
pub data ExecEvent : Type 0 where
  exec_works exec_fails exec_lost : ExecEvent

-- Which calls of an operation fail.
pub record Faults : Type 0 where
  pub read : Bool
  pub put : PutEvent
  pub insert : ExecEvent
  pub update : ExecEvent
  pub select : Bool

-- SHA-256 in hexadecimal; whether `uuid.Parse` takes a text; and the UUID that the database reads in
-- a text, which it may refuse.
pub record Parts : Type 0 where
  pub hash : Bytes → Bytes
  pub go_parses : Bytes → Bool
  pub row_id : Bytes → Option Bytes

-- `fmt.Sprintf("releases/%s/bundle", id)`
abbrev pub storage_key : Bytes → Bytes
storage_key id = codes "releases/" ++ (id ++ codes "/bundle")

abbrev pub new_release : Bytes → ℕ → CreateInput → Release
new_release id now in' = record {
  id = id;
  version = in'.version;
  platform = in'.platform;
  channel = in'.channel;
  runtime_version = in'.runtime_version;
  bundle_hash = in'.bundle_hash;
  signature = in'.signature;
  bundle_size = length in'.bundle;
  bundle_storage_key = storage_key id;
  rollout_percentage = in'.rollout_percentage;
  published_at = none;
  created_at = now;
}

abbrev pub find_blob : Bytes → List (Bytes × Bytes) → Option Bytes
find_blob key [] = none
find_blob key ((other, blob) ∷ rest) =
    let others = find_blob key rest in if bytes_eq key other then some blob else others

abbrev pub find_row : Bytes → List Release → Option Release
find_row id [] = none
find_row id (r ∷ rest) =
    let others = find_row id rest in if bytes_eq id r.id then some r else others

abbrev pub is_published : Release → Bool
is_published r = elim r.published_at [ none ↦ false | some _ ↦ true ]

-- The `UPDATE` of `Publish`: the rows after it, and how many it changed.
abbrev pub published_row : Bytes → ℕ → Release → Release
published_row id now r =
    if bytes_eq id r.id
    then (if is_published r then r else record r { published_at = some now })
    else r

-- The conditions of `ListUpdates`.
unfoldable pub is_offered : ListUpdatesFilter → Release → Bool
is_offered f r =
    is_published r
    && bytes_eq r.channel f.channel
    && bytes_eq r.platform f.platform
    && bytes_eq r.runtime_version f.runtime_version
    && ltb 0 r.rollout_percentage

abbrev pub selected : (Release → Bool) → List Release → List Release
selected p [] = []
selected p (r ∷ rest) = let others = selected p rest in if p r then r ∷ others else others

-- `ORDER BY created_at DESC`
abbrev pub insert_newest : Release → List Release → List Release
insert_newest r [] = r ∷ []
insert_newest r (s ∷ rest) =
    let others = insert_newest r rest in
    if leb s.created_at r.created_at then r ∷ (s ∷ rest) else s ∷ others

abbrev pub newest_first : List Release → List Release
newest_first [] = []
newest_first (r ∷ rest) = insert_newest r (newest_first rest)

-- The two `CHECK`s of the table.
unfoldable pub fits_table : Release → Bool
fits_table r =
    (bytes_eq r.platform (codes "ios") || bytes_eq r.platform (codes "android"))
    && leb r.rollout_percentage 100

abbrev pub insert_row : ExecEvent → Release → Service → Answer Release × Service
insert_row exec_works r s = (ok r, record s { rows = r ∷ s.rows })
insert_row exec_fails r s = (err failed, s)
insert_row exec_lost r s = (err failed, record s { rows = r ∷ s.rows })

module _ (P : Parts) where
  -- The `INSERT`. That the table refuses an identifier that a row has is one of its failures.
  abbrev pub inserted : Faults → Bytes → ℕ → CreateInput → Service → Answer Release × Service
  inserted x id now in' s =
      let r = new_release id now in' in
      if fits_table r then insert_row x.insert r s else (err failed, s)

  abbrev pub stored :
      PutEvent → Faults → Bytes → ℕ → CreateInput → Service → Answer Release × Service
  stored put_works x id now in' s =
      inserted x id now in' (record s { blobs = (storage_key id, in'.bundle) ∷ s.blobs })
  stored put_fails x id now in' s = (err failed, s)
  stored (put_stops part) x id now in' s =
      (err failed, record s { blobs = (storage_key id, part) ∷ s.blobs })

  -- `Create`, with the UUID and the time that it draws.
  unfoldable pub create : Faults → Bytes → ℕ → CreateInput → Service → Answer Release × Service
  create x id now in' s =
      if x.read
      then (err failed, s)
      else if bytes_eq (P.hash in'.bundle) in'.bundle_hash
      then stored x.put x id now in' s
      else (err hash_mismatch, s)

  abbrev pub found : Option Release → Answer Release
  found none = err not_found
  found (some r) = ok r

  abbrev pub lookup : Option Bytes → Service → Answer Release
  lookup none s = err failed
  lookup (some id) s = found (find_row id s.rows)

  unfoldable pub get : Faults → Bytes → Service → Answer Release
  get x id s =
      if P.go_parses id
      then (if x.select then err failed else lookup (P.row_id id) s)
      else err invalid_id

  -- `Publish` behind its `UPDATE`. Where no row was changed, `Get` is called twice.
  unfoldable pub updated : Faults → Bytes → ℕ → Option Bytes → Service → Answer Release × Service
  updated x id now none s = (err failed, s)
  updated x id now (some row) s =
      let s' = record s { rows = map (published_row row now) s.rows } in (get x id s', s')

  abbrev pub answered : ExecEvent → Service → Answer Release × Service → Answer Release × Service
  answered exec_works s (answer, s') = (answer, s')
  answered exec_fails s (answer, s') = (err failed, s)
  answered exec_lost s (answer, s') = (err failed, s')

  unfoldable pub publish : Faults → Bytes → ℕ → Service → Answer Release × Service
  publish x id now s =
      if P.go_parses id
      then answered x.update s (updated x id now (P.row_id id) s)
      else (err invalid_id, s)

  unfoldable pub list_updates : Faults → ListUpdatesFilter → Service → Answer (List Release)
  list_updates x f s =
      if x.select then err failed else ok (newest_first (selected (is_offered f) s.rows))

  -- `List`
  unfoldable pub list_releases : Faults → Service → Answer (List Release)
  list_releases x s = if x.select then err failed else ok (newest_first s.rows)

  abbrev pub opened : Release → Option Bytes → Answer (Bytes × Release)
  opened r none = err failed
  opened r (some blob) = ok (blob, r)

  unfoldable pub open_bundle : Faults → Bytes → Service → Answer (Bytes × Release)
  open_bundle x id s = do r ← get x id s; opened r (find_blob r.bundle_storage_key s.blobs)

-- ===== src/Server/Stored.antt =====
-- Every row of the table has its bundle in the storage, with the hash and the size that it names.
use mathlib.Core.Path.{subst}
use salve_push.Base.{
  ℕ, ◌≡◌, ◌≢◌, refl, sym, Bool, true, false, Option, none, some, List, [], ◌∷◌, Bytes, bytes_eq,
  bytes_eq-ne, bytes_eq_refl, bytes_eq-true, length, map, if◌then◌else◌,
}
use salve_push.Server.{
  Release, CreateInput, Answer, ok, err, failed, invalid_id, ◌>>=◌, Service, PutEvent, put_works,
  put_fails, put_stops, ExecEvent, exec_works, exec_fails, exec_lost, insert_row, answered, Faults,
  Parts, storage_key, fits_table, new_release, find_blob, find_row, published_row, is_published,
  stored, create, found, lookup, get, updated, publish, opened, open_bundle,
}

abbrev pub All : (Release → Type 0) → List Release → Type 0
All Q [] = Unit {0}
All Q (r ∷ rest) = Q r × All Q rest

pub All-map :
    (Q : Release → Type 0) (f : Release → Release)
    → ((r : Release) → Q r → Q (f r))
    → (rows : List Release) → All Q rows
    → All Q (map f rows)
All-map Q f keep [] h = tt
All-map Q f keep (r ∷ rest) (h, hs) = (keep r h, All-map Q f keep rest hs)

-- A statement that fails leaves the state before it, or the one behind it.
pub answered_state :
    (P : Parts) (Q : Service → Type 0) (event : ExecEvent) (s : Service)
    (made : Answer Release × Service)
    → Q s
    → Q made.1
    → Q (answered P event s made).1
answered_state P Q exec_works s (answer, t) before behind = behind
answered_state P Q exec_fails s (answer, t) before behind = before
answered_state P Q exec_lost s (answer, t) before behind = behind

-- No row has the storage key of this id.
abbrev pub IsFresh : Bytes → List Release → Type 0
IsFresh id rows = All (λ r. r.bundle_storage_key ≢ storage_key id) rows

abbrev pub empty_service : Service
empty_service = record { rows = []; blobs = [] }

module _ (P : Parts) where
  -- Creations with an id that is new, and publications, whatever fails.
  pub data Step : Service → Service → Type 0 where
    created :
        (x : Faults) (id : Bytes) (now : ℕ) (in' : CreateInput) (s : Service)
        → IsFresh id s.rows
        → Step s (create P x id now in' s).1
    published : (x : Faults) (id : Bytes) (now : ℕ) (s : Service) → Step s (publish P x id now s).1

  pub data Reach (s : Service) : Service → Type 0 where
    here : Reach s s
    next : {t u : Service} → Reach s t → Step t u → Reach s u

  -- What a blob must be for a row.
  abbrev Fits : Release → Option Bytes → Type 0
  Fits r none = ⊥
  Fits r (some blob) = (P.hash blob ≡ r.bundle_hash) × (length blob ≡ r.bundle_size)

  abbrev IsStored : List (Bytes × Bytes) → Release → Type 0
  IsStored blobs r = Fits r (find_blob r.bundle_storage_key blobs)

  abbrev Inv : Service → Type 0
  Inv s = All (IsStored s.blobs) s.rows

  -- A blob under a fresh key hides no other.
  other_blob :
      (id blob : Bytes) (blobs : List (Bytes × Bytes)) (rows : List Release)
      → IsFresh id rows
      → All (IsStored blobs) rows
      → All (IsStored ((storage_key id, blob) ∷ blobs)) rows
  other_blob id blob blobs [] fresh h = tt
  other_blob id blob blobs (r ∷ rest) (ne, fresh) (h, hs) = (
    subst (λ b. Fits r (if b then some blob else find_blob r.bundle_storage_key blobs))
        (sym (bytes_eq-ne r.bundle_storage_key (storage_key id) ne)) h,
    other_blob id blob blobs rest fresh hs,
  )

  stored-Inv :
      (event : PutEvent) (x : Faults) (id : Bytes) (now : ℕ) (in' : CreateInput) (s : Service)
      → P.hash in'.bundle ≡ in'.bundle_hash
      → IsFresh id s.rows
      → Inv s
      → Inv (stored P event x id now in' s).1
  stored-Inv put_fails x id now in' s same fresh h = h
  stored-Inv (put_stops part) x id now in' s same fresh h =
      other_blob id part s.blobs s.rows fresh h
  stored-Inv put_works x id now in' s same fresh h =
      at (fits_table (new_release id now in')) x.insert
    where
      others : All (IsStored ((storage_key id, in'.bundle) ∷ s.blobs)) s.rows
      others = other_blob id in'.bundle s.blobs s.rows fresh h

      with_row :
          All (IsStored ((storage_key id, in'.bundle) ∷ s.blobs)) (new_release id now in' ∷ s.rows)
      with_row = (
        subst
            (λ b.
              Fits (new_release id now in')
                (if b then some in'.bundle else find_blob (storage_key id) s.blobs))
            (sym (bytes_eq_refl (storage_key id))) (same, refl),
        others,
      )

      at :
          (fits : Bool) (event : ExecEvent)
          → let s' = record s { blobs = (storage_key id, in'.bundle) ∷ s.blobs } in
            Inv (if fits then insert_row event (new_release id now in') s' else (err failed, s')).1
      at false event = others
      at true exec_works = with_row
      at true exec_fails = others
      at true exec_lost = with_row

  published_row-IsStored :
      (id : Bytes) (now : ℕ) (blobs : List (Bytes × Bytes)) (r : Release)
      → IsStored blobs r
      → IsStored blobs (published_row id now r)
  published_row-IsStored id now blobs r h = at (bytes_eq id r.id) (is_published r)
    where
      at :
          (b c : Bool)
          → IsStored blobs
              (if b then (if c then r else record r { published_at = some now }) else r)
      at true true = h
      at true false = h
      at false c = h

  updated-Inv :
      (x : Faults) (id : Bytes) (now : ℕ) (o : Option Bytes) (s : Service)
      → Inv s
      → Inv (updated P x id now o s).1
  unfolding updated
  updated-Inv x id now none s h = h
  updated-Inv x id now (some row) s h =
      All-map (IsStored s.blobs) (published_row row now) (published_row-IsStored row now s.blobs)
        s.rows h

  either-Inv :
      {A : Type 0} (b : Bool) (m m' : A × Service)
      → (b ≡ true → Inv m.1)
      → (b ≡ false → Inv m'.1)
      → Inv (if b then m else m').1
  either-Inv true m m' yes' no' = yes' refl
  either-Inv false m m' yes' no' = no' refl

  Step-Inv : {s t : Service} → Step s t → Inv s → Inv t
  unfolding create publish
  Step-Inv (created x id now in' s fresh) h =
      either-Inv x.read _ _ (λ _. h)
        (λ _.
          either-Inv (bytes_eq (P.hash in'.bundle) in'.bundle_hash) _ _
            (λ e.
              stored-Inv x.put x id now in' s (bytes_eq-true (P.hash in'.bundle) in'.bundle_hash e)
                fresh h)
            (λ _. h))
  Step-Inv (published x id now s) h =
      either-Inv (P.go_parses id) _ _
        (λ _.
          answered_state P Inv x.update s (updated P x id now (P.row_id id) s) h
            (updated-Inv x id now (P.row_id id) s h))
        (λ _. h)

  Reach-Inv : {s : Service} → Reach empty_service s → Inv s
  Reach-Inv here = tt
  Reach-Inv (next r step) = Step-Inv step (Reach-Inv r)

  abbrev Good : Answer (Bytes × Release) → Type 0
  Good (ok (blob, r)) = (P.hash blob ≡ r.bundle_hash) × (length blob ≡ r.bundle_size)
  Good (err e) = Unit {0}

  opened-Good : (r : Release) (o : Option Bytes) → Fits r o → Good (opened P r o)
  opened-Good r none h = tt
  opened-Good r (some blob) h = h

  -- What is looked up fits, and so does what is opened with it.
  found-Good :
      (s : Service) (id : Bytes) (rows : List Release)
      → All (IsStored s.blobs) rows
      → Good (
          found P (find_row id rows) >>= (λ r. opened P r (find_blob r.bundle_storage_key s.blobs)))
  found-Good s id [] h = tt
  found-Good s id (r ∷ rest) (h, hs) = at (bytes_eq id r.id) (found-Good s id rest hs)
    where
      at :
          (b : Bool)
          → Good (
              found P (find_row id rest)
              >>= (λ r. opened P r (find_blob r.bundle_storage_key s.blobs)))
          → Good (
              found P (if b then some r else find_row id rest)
              >>= (λ r. opened P r (find_blob r.bundle_storage_key s.blobs)))
      at true others = opened-Good r (find_blob r.bundle_storage_key s.blobs) h
      at false others = others

  open_bundle-Good : (x : Faults) (id : Bytes) (s : Service) → Inv s → Good (open_bundle P x id s)
  unfolding open_bundle get
  open_bundle-Good x id s h = parsed (P.go_parses id)
    where
      then_open : Answer Release → Answer (Bytes × Release)
      then_open a = a >>= (λ r. opened P r (find_blob r.bundle_storage_key s.blobs))

      read : (o : Option Bytes) → Good (then_open (lookup P o s))
      read none = tt
      read (some row) = found-Good s row s.rows h

      queried : (b : Bool) → Good (then_open (if b then err failed else lookup P (P.row_id id) s))
      queried true = tt
      queried false = read (P.row_id id)

      parsed :
          (b : Bool)
          → Good (
              then_open (
                if b
                then (if x.select then err failed else lookup P (P.row_id id) s)
                else err invalid_id))
      parsed true = queried x.select
      parsed false = tt

  -- From an empty service, through creations with identifiers whose storage key no row has and
  -- publications, whatever fails on the way, also with a part of a bundle stored: a bundle that
  -- `OpenBundle` gives with a release has the hash and the size that the release names.
  pub served-fits :
      (x : Faults) (id blob : Bytes) (r : Release) (s : Service)
      → Reach empty_service s
      → open_bundle P x id s ≡ ok (blob, r)
      → (P.hash blob ≡ r.bundle_hash) × (length blob ≡ r.bundle_size)
  served-fits x id blob r s reached e = subst Good e (open_bundle-Good x id s (Reach-Inv reached))

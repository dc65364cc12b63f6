-- ===== src/Delivery.antt =====
-- From the command line client through the server to a device. The handler is handleBundle of
-- server/internal/api/updates.go, and the metadata is toReleaseMetadata of releases.go beside it.
pub mod Delivered
pub mod Booted
use salve_push.Base.{
  ℕ, ◌≡◌, ap, ◌∙◌, true, false, some, [], ◌∷◌, Bytes, codes, bytes_eq_refl, bytes_eq_self, map,
  if◌then◌else◌,
}
use salve_push.Cli.{ReleaseParams, ReleasePayload}
use salve_push.Sdk.Update.{UpdateInfo, Response}
use salve_push.Sdk.Update
use salve_push.Server.{
  Release, CreateInput, Answer, ok, err, not_found, invalid_id, hash_mismatch, failed, Service,
  put_works, exec_works, Faults, Parts, storage_key, fits_table, new_release, published_row, stored,
  create, lookup, found, get, find_blob, opened, ◌>>=◌, updated, publish, open_bundle, find_row,
}

-- The input that the handler of an upload makes of the form, with the percentage that it reads.
abbrev pub create_input : ReleaseParams → ReleasePayload → ℕ → CreateInput
create_input params payload rollout = record {
  version = params.version;
  platform = params.platform;
  channel = params.channel;
  runtime_version = params.runtime_version;
  bundle_hash = payload.bundle_hash;
  signature = payload.signature;
  rollout_percentage = rollout;
  bundle = payload.bundle_bytes;
}

-- `toReleaseMetadata`, as the device reads it.
abbrev pub release_metadata : Release → UpdateInfo
release_metadata r = record {
  id = r.id;
  version = r.version;
  platform = r.platform;
  channel = r.channel;
  runtime_version = r.runtime_version;
  bundle_hash = r.bundle_hash;
  signature = r.signature;
  size = r.bundle_size;
}

abbrev pub http_error : ℕ → Bytes → Response
http_error status text = record { is_ok = false; status = status; body = some text }

-- `handleBundle`
abbrev pub bundle_response : Answer (Bytes × Release) → Response
bundle_response (ok (blob, r)) = record { is_ok = true; status = 200; body = some blob }
bundle_response (err invalid_id) = http_error 400 (codes "invalid update id\n")
bundle_response (err not_found) = http_error 404 (codes "update not found\n")
bundle_response (err hash_mismatch) = http_error 500 (codes "failed to open bundle\n")
bundle_response (err failed) = http_error 500 (codes "failed to open bundle\n")

-- No call fails.
abbrev pub calm : Faults
calm = record {
  read = false;
  put = put_works;
  insert = exec_works;
  update = exec_works;
  select = false;
}

module _ (P : Parts) where
  unfoldable pub handle_bundle : Faults → Bytes → Service → Response
  handle_bundle x id s = bundle_response (open_bundle P x id s)

  -- The service after an upload and its publication.
  abbrev pub after_publication : Bytes → ℕ → ℕ → CreateInput → Service → Service
  after_publication id now later in' s = (publish P calm id later (create P calm id now in' s).1).1

  module _ (id : Bytes) (now later : ℕ) (in' : CreateInput) (s : Service) where
    abbrev pub published : Release
    published = record (new_release id now in') { published_at = some later }

    abbrev uploaded : Service
    uploaded = record {
      rows = new_release id now in' ∷ s.rows;
      blobs = (storage_key id, in'.bundle) ∷ s.blobs;
    }

    abbrev offering : Service
    offering = record uploaded { rows = published ∷ map (published_row id later) s.rows }

    pub create_lem :
        P.hash in'.bundle ≡ in'.bundle_hash
        → fits_table (new_release id now in') ≡ true
        → create P calm id now in' s ≡ (ok (new_release id now in'), uploaded)
    unfolding create
    create_lem hash fits =
        let r = new_release id now in' in
        ap (λ b. if b then stored P put_works calm id now in' s else (err hash_mismatch, s))
          (bytes_eq_self (P.hash in'.bundle) in'.bundle_hash hash)
        ∙ ap (λ b. if b then (ok r, uploaded) else (err failed, record uploaded { rows = s.rows }))
            fits

    publish_lem :
        P.go_parses id ≡ true
        → P.row_id id ≡ some id
        → (publish P calm id later uploaded).1 ≡ offering
    unfolding publish updated
    publish_lem parses row =
        ap
          (λ b.
            (if b
              then updated P calm id later (P.row_id id) uploaded
              else (err invalid_id, uploaded)).1)
          parses
        ∙ ap (λ o. (updated P calm id later o uploaded).1) row
        ∙ ap
            (λ b. record uploaded {
              rows =
                  (if b then published else new_release id now in')
                  ∷ map (published_row id later) s.rows;
            })
            (bytes_eq_refl id)

    open_lem :
        P.go_parses id ≡ true
        → P.row_id id ≡ some id
        → open_bundle P calm id offering ≡ ok (in'.bundle, published)
    unfolding open_bundle get
    open_lem parses row =
        let then_open : Answer Release → Answer (Bytes × Release) =
          λ a. a >>= (λ r. opened P r (find_blob r.bundle_storage_key offering.blobs)) in
        ap (λ b. then_open (if b then lookup P (P.row_id id) offering else err invalid_id)) parses
        ∙ ap (λ o. then_open (lookup P o offering)) row
        ∙ ap
            (λ b. then_open (
              found P
                (if b then some published else find_row id (map (published_row id later) s.rows))))
            (bytes_eq_refl id)
        ∙ ap
            (λ b.
              opened P published
                (if b then some in'.bundle else find_blob (storage_key id) s.blobs))
            (bytes_eq_refl (storage_key id))

    -- The row that is found has the time of the publication.
    publication-find_row :
        P.hash in'.bundle ≡ in'.bundle_hash
        → P.go_parses id ≡ true
        → P.row_id id ≡ some id
        → fits_table (new_release id now in') ≡ true
        → find_row id (after_publication id now later in' s).rows ≡ some published
    publication-find_row hash parses row fits =
        ap (λ (r : Answer Release × Service). find_row id (publish P calm id later r.1).1.rows)
          (create_lem hash fits)
        ∙ ap (λ (t : Service). find_row id t.rows) (publish_lem parses row)
        ∙ ap (λ b. if b then some published else find_row id (map (published_row id later) s.rows))
            (bytes_eq_refl id)

    publication_lem :
        P.hash in'.bundle ≡ in'.bundle_hash
        → P.go_parses id ≡ true
        → P.row_id id ≡ some id
        → fits_table (new_release id now in') ≡ true
        → open_bundle P calm id (after_publication id now later in' s) ≡ ok (in'.bundle, published)
    publication_lem hash parses row fits =
        ap (λ made. open_bundle P calm id (publish P calm id later made.1).1) (create_lem hash fits)
        ∙ ap (open_bundle P calm id) (publish_lem parses row)
        ∙ open_lem parses row

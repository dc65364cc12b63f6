-- ===== src/Server/Http/Rows.antt =====
-- What the table holds after any requests, and what a device is offered of it.
use salve_push.Base.{ℕ, sym, Option, none, some, inl, inr, List, Bytes, bytes_eq, map, if_elim}
use salve_push.Server.{
  Release, Service, Faults, Parts, Answer, published_row, is_published, updated, publish,
}
use salve_push.Server.Stored.{All, All-map, answered_state, empty_service}
use salve_push.Server.Http.{Form, handle_create, handle_publish}
use salve_push.Server.Http.Answers.{IsRow, handle_create_cases}
use mathlib.Core.Path.{subst}

published_row-IsRow :
    (id : Bytes) (now : ℕ) (r : Release) → IsRow r → IsRow (published_row id now r)
published_row-IsRow id now r h =
    if_elim IsRow (bytes_eq id r.id)
      (λ _.
        if_elim IsRow (is_published r) (λ _. h)
          (λ _. record {
            platform = h.platform;
            rollout = h.rollout;
            version = h.version;
            channel = h.channel;
            runtime_version = h.runtime_version;
            bundle_hash = h.bundle_hash;
            signature = h.signature;
          }))
      (λ _. h)

module _ (P : Parts) where
  -- The requests that change the table, whatever their contents and whatever fails.
  pub data Request : Service → Service → Type 0 where
    uploads :
        (x : Faults) (id : Bytes) (now : ℕ) (form : Form) (s : Service)
        → Request s (handle_create P x id now form s).1
    publishes :
        (x : Faults) (id : Bytes) (now : ℕ) (s : Service)
        → Request s (handle_publish P x id now s).1

  pub data Requests (s : Service) : Service → Type 0 where
    here : Requests s s
    next : {t u : Service} → Requests s t → Request t u → Requests s u

  -- `publish` gives each row the time, or leaves it alone.
  publish-rows :
      (Q : List Release → Type 0) (x : Faults) (id : Bytes) (now : ℕ) (s : Service)
      → Q s.rows
      → ((row : Bytes) → Q (map (published_row row now) s.rows))
      → Q (publish P x id now s).1.rows
  unfolding publish updated
  publish-rows Q x id now s same changed =
      if_elim (λ (e : Answer Release × Service). Q e.1.rows) (P.go_parses id)
        (λ _.
          answered_state P (λ t. Q t.rows) x.update s (updated P x id now (P.row_id id) s) same
            (at (P.row_id id)))
        (λ _. same)
    where
      at : (o : Option Bytes) → Q (updated P x id now o s).1.rows
      at none = same
      at (some row) = changed row

  Request-IsRow : {s t : Service} → Request s t → All IsRow s.rows → All IsRow t.rows
  unfolding handle_publish
  Request-IsRow (uploads x id now form s) h = elim (handle_create_cases P id now s x form) [
    | inl (r, _, rows, _, row) ↦ subst (All IsRow) (sym rows) (row, h)
    | inr (inl (_, rows)) ↦ subst (All IsRow) (sym rows) h
    | inr (inr (_, _, r, rows, _, row)) ↦ subst (All IsRow) (sym rows) (row, h)
  ]
  Request-IsRow (publishes x id now s) h =
      publish-rows (All IsRow) x id now s h
        (λ row. All-map IsRow (published_row row now) (published_row-IsRow row now) s.rows h)

  -- From an empty service, after any uploads and publications, whatever they contain and whatever
  -- fails: each row of the table has the platform `ios` or `android`, a rollout percentage of at
  -- most 100, and no empty version, channel, runtime version, hash or signature.
  pub Requests-IsRow : {s : Service} → Requests empty_service s → All IsRow s.rows
  Requests-IsRow here = tt
  Requests-IsRow (next r request) = Request-IsRow request (Requests-IsRow r)

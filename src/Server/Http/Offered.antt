-- ===== src/Server/Http/Offered.antt =====
-- Uploads and publications, as a device sees them.
use salve_push.Base.{
  ℕ, ◌≡◌, refl, sym, ap, ap₂, ◌∙◌, Bool, true, false, Option, none, some, inl, inr, List, [], ◌∷◌,
  Bytes, bytes_eq, map, ◌||◌, if◌then◌else◌, codes, arith,
}
use salve_push.Server.{
  Release, Service, Faults, Parts, ExecEvent, exec_works, exec_fails, exec_lost, answered, err, ok,
  failed, invalid_id, published_row, updated, publish, ListUpdatesFilter, selected, is_offered,
  list_updates, newest_first,
}
use salve_push.Server.Stored.{answered_state}
use salve_push.Server.Http.{
  Form, Reply, status, list_reply, is_empty, problem, handle_create, handle_publish, handle_updates,
}
use salve_push.Server.Http.Answers.{handle_create_cases}

unpublished-is_offered :
    (f : ListUpdatesFilter) (r : Release) → r.published_at ≡ none → is_offered f r ≡ false
unfolding is_offered
unpublished-is_offered f r h = rw h

selected_unpublished :
    (f : ListUpdatesFilter) (r : Release) (rows : List Release)
    → r.published_at ≡ none
    → selected (is_offered f) (r ∷ rows) ≡ selected (is_offered f) rows
selected_unpublished f r rows h = rw (unpublished-is_offered f r h)

-- The row that is published already keeps its time.
published_row_twice :
    (id : Bytes) (now later : ℕ) (r : Release)
    → published_row id later (published_row id now r) ≡ published_row id now r
published_row_twice id now later r = at (bytes_eq id r.id) r.published_at refl
  where
    at :
        (b : Bool) (o : Option ℕ)
        → bytes_eq id r.id ≡ b
        → let q = record r { published_at = o } in
          published_row id later (published_row id now q) ≡ published_row id now q
    at false o e = rw e (rw e)
    at true none e = rw e (rw e)
    at true (some t) e = rw e (rw e)

published_rows_twice :
    (id : Bytes) (now later : ℕ) (rows : List Release)
    → map (published_row id later) (map (published_row id now) rows)
      ≡ map (published_row id now) rows
published_rows_twice id now later [] = refl
published_rows_twice id now later (r ∷ rest) =
    ap₂ (λ q qs. q ∷ qs) (published_row_twice id now later r)
      (published_rows_twice id now later rest)

module _ (P : Parts) where
  -- An upload, whatever it contains and whatever fails, changes no answer of the list of updates:
  -- a release that was uploaded is offered to no device before it is published.
  pub upload_hidden :
      (x y : Faults) (id : Bytes) (now : ℕ) (form : Form) (f : ListUpdatesFilter) (s : Service)
      → handle_updates P y f (handle_create P x id now form s).1 ≡ handle_updates P y f s
  unfolding handle_updates list_updates
  upload_hidden x y id now form f s =
      let answer : List Release → Reply = λ offered.
        if is_empty f.channel || is_empty f.platform || is_empty f.runtime_version
        then problem 400 (codes "channel, platform and runtime_version are required")
        else list_reply (codes "updates")
            (if y.select then err failed else ok (newest_first offered)) in
      elim (handle_create_cases P id now s x form) [
        | inl (r, _, rows, unpublished, _) ↦
            ap answer
              (ap (selected (is_offered f)) rows ∙ selected_unpublished f r s.rows unpublished)
        | inr (inl (_, rows)) ↦ ap (λ rs. answer (selected (is_offered f) rs)) rows
        | inr (inr (_, _, r, rows, unpublished, _)) ↦
            ap answer
              (ap (selected (is_offered f)) rows ∙ selected_unpublished f r s.rows unpublished)
      ]

  -- A publication that was answered with the release changed the rows, of which the database found one.
  published_ok :
      (x : Faults) (id : Bytes) (now : ℕ) (s : Service)
      → status (handle_publish P x id now s).0 ≡ 200
      → (row : Bytes) × (P.row_id id ≡ some row)
        × ((handle_publish P x id now s).1 ≡ record s { rows = map (published_row row now) s.rows })
  unfolding handle_publish publish updated
  published_ok x id now s h = at (P.go_parses id) x.update (P.row_id id) refl refl refl
    where
      at :
          (b : Bool) (c : ExecEvent) (o : Option Bytes)
          → P.go_parses id ≡ b
          → x.update ≡ c
          → P.row_id id ≡ o
          → (row : Bytes) × (P.row_id id ≡ some row)
            × ((handle_publish P x id now s).1
                ≡ record s { rows = map (published_row row now) s.rows })
      at false c o e e' e'' = absurd (omega (arith, rw e at h))
      at true exec_fails o e e' e'' = absurd (omega (arith, rw (e, e') at h))
      at true exec_lost o e e' e'' = absurd (omega (arith, rw (e, e') at h))
      at true exec_works none e e' e'' = absurd (omega (arith, rw (e, e', e'') at h))
      at true exec_works (some row) e e' e'' = (row, e'', rw (e, e', e''))

  publish_again :
      (y : Faults) (id row : Bytes) (now later : ℕ) (s : Service)
      → P.row_id id ≡ some row
      → let t = record s { rows = map (published_row row now) s.rows } in
        (handle_publish P y id later t).1 ≡ t
  unfolding handle_publish publish updated
  publish_again y id row now later s e = at (P.go_parses id)
    where
      t : Service
      t = record s { rows = map (published_row row now) s.rows }

      at :
          (b : Bool)
          → (if b
              then answered P y.update t (updated P y id later (P.row_id id) t)
              else (err invalid_id, t)).1
            ≡ t
      at false = refl
      at true =
          answered_state P (λ u. u ≡ t) y.update t (updated P y id later (P.row_id id) t) refl
            (ap (λ o. (updated P y id later o t).1) e
              ∙ ap (λ rs. record s { rows = rs }) (published_rows_twice row now later s.rows))

  -- A publication that was answered with 200 is not changed by a second one, which keeps its time.
  pub publish_once :
      (x y : Faults) (id : Bytes) (now later : ℕ) (s : Service)
      → status (handle_publish P x id now s).0 ≡ 200
      → (handle_publish P y id later (handle_publish P x id now s).1).1
        ≡ (handle_publish P x id now s).1
  publish_once x y id now later s h =
      let (row, e, same) = published_ok x id now s h in
      ap (λ t. (handle_publish P y id later t).1) same
      ∙ publish_again y id row now later s e
      ∙ sym same

-- ===== src/Server/Http/Answers.antt =====
-- What an answer to an upload says of the table.
use mathlib.Core.Path.{subst}
use salve_push.Base.{
  ℕ, ◌≤◌, ◌≡◌, ◌⊎◌, inl, inr, refl, sym, ap, ◌∙◌, Bool, true, false, ◌||◌, ◌&&◌, Option, none, some,
  ◌∷◌, Bytes, bytes_eq, bytes_eq-true, codes, leb, Bool-cases, if_elim, arith,
}
use salve_push.Server.{
  Release, CreateInput, ServiceError, Answer, ok, err, hash_mismatch, not_found, invalid_id, failed,
  Service, PutEvent, put_works, put_fails, put_stops, ExecEvent, exec_works, exec_fails, exec_lost,
  insert_row, Faults, Parts, new_release, fits_table, inserted, stored, create,
}
use salve_push.Server.Http.{
  Form, Reply, metadata, status, to_release_metadata, created_reply, is_empty, lacks_field,
  rollout_of, form_input, with_input, with_rollout, with_file, parsed, handle_create,
}

-- What the columns of a row hold.
pub record IsRow (r : Release) : Type 0 where
  pub platform : (r.platform ≡ codes "ios") ⊎ (r.platform ≡ codes "android")
  pub rollout : r.rollout_percentage ≤ 100
  pub version : is_empty r.version ≡ false
  pub channel : is_empty r.channel ≡ false
  pub runtime_version : is_empty r.runtime_version ≡ false
  pub bundle_hash : is_empty r.bundle_hash ≡ false
  pub signature : is_empty r.signature ≡ false

fits_table-platform :
    (r : Release)
    → fits_table r ≡ true
    → (r.platform ≡ codes "ios") ⊎ (r.platform ≡ codes "android")
unfolding fits_table
fits_table-platform r h = elim (Bool-cases (bytes_eq r.platform (codes "ios"))) [
  | inl e ↦ inl (bytes_eq-true r.platform (codes "ios") e)
  | inr e ↦ elim (Bool-cases (bytes_eq r.platform (codes "android"))) [
    | inl e' ↦ inr (bytes_eq-true r.platform (codes "android") e')
    | inr e' ↦ absurd (
        cc (
          sym (
            ap (λ b. (b || bytes_eq r.platform (codes "android")) && leb r.rollout_percentage 100) e
            ∙ ap (λ b. b && leb r.rollout_percentage 100) e')
          ∙ h))
  ]
]

both_true : (a b : Bool) → (a && b) ≡ true → b ≡ true
both_true true b e = e
both_true false b e = cc e

fits_table-rollout : (r : Release) → fits_table r ≡ true → r.rollout_percentage ≤ 100
unfolding fits_table
fits_table-rollout r h = leb_le (r.rollout_percentage) (
    both_true (bytes_eq r.platform (codes "ios") || bytes_eq r.platform (codes "android"))
      (leb r.rollout_percentage 100) h)
  where
    leb_le : (n : ℕ) → leb n 100 ≡ true → n ≤ 100
    leb_le n e = ground arith

either_false : (a b : Bool) → (a || b) ≡ false → (a ≡ false) × (b ≡ false)
either_false false b e = (refl, e)
either_false true b e = cc e

new_release-IsRow :
    (id : Bytes) (now : ℕ) (in' : CreateInput)
    → lacks_field in' ≡ false
    → fits_table (new_release id now in') ≡ true
    → IsRow (new_release id now in')
new_release-IsRow id now in' complete fits =
    let (a, signature) = either_false _ (is_empty in'.signature) complete in
    let (b, bundle_hash) = either_false _ (is_empty in'.bundle_hash) a in
    let (c, runtime_version) = either_false _ (is_empty in'.runtime_version) b in
    let (d, channel) = either_false _ (is_empty in'.channel) c in
    let (version, _) = either_false _ (is_empty in'.platform) d in
    record {
      platform = fits_table-platform (new_release id now in') fits;
      rollout = fits_table-rollout (new_release id now in') fits;
      version = version;
      channel = channel;
      runtime_version = runtime_version;
      bundle_hash = bundle_hash;
      signature = signature;
    }

module _ (P : Parts) (id : Bytes) (now : ℕ) (s : Service) where
  -- Either the new row is added and given, or nothing is added, or the answer of the insertion is
  -- lost.
  abbrev Adds : ExecEvent → CreateInput → Answer Release × Service → Type 0
  Adds event in' (answer, t) =
      ((answer ≡ ok (new_release id now in'))
        × (t.rows ≡ new_release id now in' ∷ s.rows)
        × (fits_table (new_release id now in') ≡ true))
      ⊎ (((e : ServiceError) × (answer ≡ err e) × (t.rows ≡ s.rows))
          ⊎ ((event ≡ exec_lost)
              × (answer ≡ err failed)
              × (t.rows ≡ new_release id now in' ∷ s.rows)
              × (fits_table (new_release id now in') ≡ true)))

  insert_row-Adds :
      (event : ExecEvent) (in' : CreateInput) (t : Service)
      → t.rows ≡ s.rows
      → fits_table (new_release id now in') ≡ true
      → Adds event in' (insert_row event (new_release id now in') t)
  insert_row-Adds exec_works in' t same fits =
      inl (refl, ap (λ rs. new_release id now in' ∷ rs) same, fits)
  insert_row-Adds exec_fails in' t same fits = inr (inl (failed, refl, same))
  insert_row-Adds exec_lost in' t same fits =
      inr (inr (refl, refl, ap (λ rs. new_release id now in' ∷ rs) same, fits))

  inserted-Adds :
      (x : Faults) (in' : CreateInput) (t : Service)
      → t.rows ≡ s.rows
      → Adds x.insert in' (inserted P x id now in' t)
  inserted-Adds x in' t same =
      if_elim (Adds x.insert in') (fits_table (new_release id now in'))
        (λ fits. insert_row-Adds x.insert in' t same fits) (λ _. inr (inl (failed, refl, same)))

  stored-Adds :
      (event : PutEvent) (x : Faults) (in' : CreateInput)
      → Adds x.insert in' (stored P event x id now in' s)
  stored-Adds put_works x in' = inserted-Adds x in' _ refl
  stored-Adds put_fails x in' = inr (inl (failed, refl, refl))
  stored-Adds (put_stops part) x in' = inr (inl (failed, refl, refl))

  create-Adds : (x : Faults) (in' : CreateInput) → Adds x.insert in' (create P x id now in' s)
  unfolding create
  create-Adds x in' =
      if_elim (Adds x.insert in') x.read (λ _. inr (inl (failed, refl, refl)))
        (λ _.
          if_elim (Adds x.insert in') (bytes_eq (P.hash in'.bundle) in'.bundle_hash)
            (λ _. stored-Adds x.put x in') (λ _. inr (inl (hash_mismatch, refl, refl))))

  abbrev pub Created : Reply × Service → Type 0
  Created (reply, t) =
      (r : Release) × (reply ≡ metadata 201 (to_release_metadata r))
      × (t.rows ≡ r ∷ s.rows)
      × (r.published_at ≡ none)
      × IsRow r

  abbrev pub Refused : Reply × Service → Type 0
  Refused (reply, t) = ((status reply ≡ 400) ⊎ (status reply ≡ 500)) × (t.rows ≡ s.rows)

  -- The row was added, but the answer does not say so.
  abbrev pub Lost : ExecEvent → Reply × Service → Type 0
  Lost event (reply, t) =
      (event ≡ exec_lost)
      × (status reply ≡ 500)
      × (r : Release) × (t.rows ≡ r ∷ s.rows)
      × (r.published_at ≡ none)
      × IsRow r

  abbrev Answers : ExecEvent → Reply × Service → Type 0
  Answers event e = Created e ⊎ (Refused e ⊎ Lost event e)

  error_status :
      (e : ServiceError)
      → (status (created_reply (err e)) ≡ 400) ⊎ (status (created_reply (err e)) ≡ 500)
  error_status hash_mismatch = inl refl
  error_status not_found = inr refl
  error_status invalid_id = inr refl
  error_status failed = inr refl

  Adds-Answers :
      (event : ExecEvent) (in' : CreateInput) (made : Answer Release × Service)
      → lacks_field in' ≡ false
      → Adds event in' made
      → Answers event (created_reply made.0, made.1)
  Adds-Answers event in' made complete (inl (given, rows, fits)) = inl (
    new_release id now in',
    ap created_reply given,
    rows,
    refl,
    new_release-IsRow id now in' complete fits,
  )
  Adds-Answers event in' made complete (inr (inl (e, given, rows))) = inr (
      inl (
        subst (λ a. (status (created_reply a) ≡ 400) ⊎ (status (created_reply a) ≡ 500)) (sym given)
            (error_status e),
        rows,
      ))
  Adds-Answers event in' made complete (inr (inr (lost, given, rows, fits))) = inr (
      inr (
        lost,
        ap (λ a. status (created_reply a)) given,
        new_release id now in',
        rows,
        refl,
        new_release-IsRow id now in' complete fits,
      ))

  module _ (x : Faults) (form : Form) where
    with_input-Answers : (in' : CreateInput) → Answers x.insert (with_input P x id now form s in')
    with_input-Answers in' =
        if_elim (Answers x.insert) (lacks_field in') (λ _. inr (inl (inl refl, refl)))
          (λ complete.
            Adds-Answers x.insert in' (create P x id now in' s) complete (create-Adds x in'))

    with_rollout-Answers :
        (bundle : Bytes) (o : Option ℕ) → Answers x.insert (with_rollout P x id now form s bundle o)
    with_rollout-Answers bundle none = inr (inl (inl refl, refl))
    with_rollout-Answers bundle (some n) = with_input-Answers (form_input form bundle n)

    with_file-Answers : (o : Option Bytes) → Answers x.insert (with_file P x id now form s o)
    with_file-Answers none = inr (inl (inl refl, refl))
    with_file-Answers (some bundle) =
        with_rollout-Answers bundle (rollout_of (form.value (codes "rollout_percentage")))

    parsed-Answers : (o : Option Bytes) → Answers x.insert (parsed P x id now form s o)
    parsed-Answers none = with_file-Answers form.bundle
    parsed-Answers (some reason) = inr (inl (inl refl, refl))

    -- An upload, whatever it contains and whatever fails, is answered in one of three ways: with
    -- 201 and the metadata of a row that is not published and was added in front of the table;
    -- with 400 or 500, and the table is as it was; or, only where the insertion took effect and
    -- its answer was lost, with 500, and a row that is not published was added in front of the
    -- table.
    pub handle_create_cases :
        Created (handle_create P x id now form s)
        ⊎ (Refused (handle_create P x id now form s)
            ⊎ Lost x.insert (handle_create P x id now form s))
    unfolding handle_create
    handle_create_cases = parsed-Answers form.parse_error

-- ===== src/Server/Http/Upload.antt =====
-- The upload of packages/cli/src/release.ts, as the server reads it.
use salve_push.Base.{
  ℕ, ◌≤◌, ◌≡◌, sym, ap, ◌∙◌, false, none, some, List, [], ◌∷◌, Bytes, bytes_eq, bytes_discrete,
  arith, if◌then◌else◌,
}
use salve_push.Posix.Format.{decimal, scan}
use salve_push.Posix.Format.Laws.{scan-decimal_end, decimal-cons}
use salve_push.Cli.{ReleaseParams, ReleasePayload, natural, or_all, number_text, form_fields}
use salve_push.Delivery.{create_input}
use salve_push.Server.{CreateInput, Service, Faults, Parts, create}
use salve_push.Server.Http.{
  Form, created_reply, atoi, ends_with, in_range, rollout_of, lacks_field, with_rollout, with_input,
  handle_create,
}

-- `FormValue` of a form that was sent with these fields.
abbrev pub field_value : List (Bytes × Bytes) → Bytes → Bytes
field_value [] name = []
field_value ((other, value) ∷ rest) name =
    let others = field_value rest name in if bytes_eq name other then value else others

atoi_digit :
    (c : ℕ) (rest : Bytes) → b'0' ≤ c → atoi (c ∷ rest) ≡ ends_with false (scan 0 (c ∷ rest))
unfolding atoi
atoi_digit c rest h = ground arith

-- A percentage is read as it was printed.
rollout_of-decimal : (n : ℕ) → n ≤ 100 → rollout_of (decimal n) ≡ some n
rollout_of-decimal n small =
    let (d, ds, e, low) = decimal-cons n in
    ap rollout_of e
    ∙ ap in_range (
        atoi_digit d ds low
        ∙ ap (λ text. ends_with false (scan 0 text)) (sym e)
        ∙ ap (ends_with false) (scan-decimal_end n))
    ∙ ground arith

module _ (P : Parts) where
  -- The service is asked where no field is missing.
  with_input_lem :
      (x : Faults) (id : Bytes) (now : ℕ) (form : Form) (s : Service) (in' : CreateInput)
      → lacks_field in' ≡ false
      → with_input P x id now form s in'
        ≡ (created_reply (create P x id now in' s).0, (create P x id now in' s).1)
  with_input_lem x id now form s in' complete = rw complete

  -- If the server reads the fields and the file that `publishRelease` sends, none of its fields is
  -- empty and the rollout percentage is at most 100: the handler of uploads answers what the
  -- service answers for exactly the parameters, the hash, the signature and the bytes of the
  -- client, and leaves the service's state.
  pub upload_creates :
      (x : Faults) (id : Bytes) (now percentage : ℕ) (params : ReleaseParams)
      (payload : ReleasePayload) (form : Form) (s : Service)
      → form.parse_error ≡ none
      → form.bundle ≡ some payload.bundle_bytes
      → ((name : Bytes) → form.value name ≡ field_value (form_fields params payload) name)
      → lacks_field (create_input params payload percentage) ≡ false
      → or_all params.rollout_percentage ≡ natural percentage
      → percentage ≤ 100
      → handle_create P x id now form s ≡ (
        created_reply (create P x id now (create_input params payload percentage) s).0,
        (create P x id now (create_input params payload percentage) s).1,
      )
  unfolding handle_create form_fields bytes_discrete
  upload_creates x id now percentage params payload form s no_error file fields complete sent_as
        small =
      let sent : Form = record {
        parse_error = none;
        bundle = some payload.bundle_bytes;
        value = field_value (form_fields params payload);
      } in
      let same : form ≡ sent =
        λ i. record { parse_error = no_error i; bundle = file i; value = λ name. fields name i } in
      ap (λ f. handle_create P x id now f s) same
      ∙ ap (with_rollout P x id now sent s payload.bundle_bytes) (
          ap (λ number. rollout_of (number_text number)) sent_as
          ∙ rollout_of-decimal percentage small)
      ∙ with_input_lem x id now sent s (create_input params payload percentage) complete

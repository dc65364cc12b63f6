-- ===== src/Cli/Keys/Signs.antt =====
-- A key that was generated signs the releases that follow.
use salve_push.Base.{
  ◌≡◌, ◌⊎◌, inl, inr, refl, ap, ◌∙◌, Bool, true, false, Option, none, some, List, [], ◌∷◌, Bytes,
  bytes_eq_refl, if◌then◌else◌,
}
use salve_push.Protocol.{
  Runtime, SigningKeyPair, ◌>>=◌ as ◌then◌, binary_text, bytes_to_base64, sha256_hex,
  signing_key_pair, verify_release,
}
use salve_push.Protocol.Laws.{AllBytes, IsLawful, verify_release-sign_release}
use salve_push.Cli.{
  ReleaseParams, ReleasePayload, params_input, form_fields, UploadRequest, upload_request,
  build_release_payload, publish_release,
}
use salve_push.Cli.Keys.{
  KeyFile, Files, Faults, writes, write_key, ok, err, key_exists, GeneratedKey, is_space, with_char,
  trim_start, trim_end, trim, resolve_signing_key_path, read_contents, mode_of, written, with_pair,
  unless_there, generate_and_write_signing_key, trimmed, load_signing_private_key, signed_with,
  release_command,
}

-- A text without white space.
abbrev pub NoSpace : Bytes → Type 0
NoSpace [] = Unit {0}
NoSpace (c ∷ rest) = (is_space c ≡ false) × NoSpace rest

trim_end-NoSpace : (text : Bytes) → NoSpace text → trim_end text ≡ text
trim_end-NoSpace [] h = refl
trim_end-NoSpace (c ∷ rest) (h, hs) = ap (with_char c) (trim_end-NoSpace rest hs) ∙ at rest
  where
    at : (text : Bytes) → with_char c text ≡ c ∷ text
    at [] = ap (λ b. if b then [] else c ∷ []) h
    at (d ∷ more) = refl

trim_start-NoSpace : (text : Bytes) → NoSpace text → trim_start text ≡ text
trim_start-NoSpace [] h = refl
trim_start-NoSpace (c ∷ rest) (h, hs) = ap (λ b. if b then trim_start rest else c ∷ rest) h

trim-NoSpace : (text : Bytes) → NoSpace text → trim text ≡ text
unfolding trim
trim-NoSpace text h = ap trim_start (trim_end-NoSpace text h) ∙ trim_start-NoSpace text h

-- The variable is not set, or empty.
abbrev pub IsUnset : Option Bytes → Type 0
IsUnset none = Unit {0}
IsUnset (some []) = Unit {0}
IsUnset (some (c ∷ rest)) = ⊥

abbrev pub no_faults : Faults
no_faults = record { read = false; mkdir = false; write = writes }

module _ (R : Runtime) where
  -- The text of the private key is the base64 of its bytes.
  private_text :
      (sk : Bytes) (pair : SigningKeyPair)
      → signing_key_pair R sk ≡ some pair
      → R.btoa (binary_text [] sk) ≡ some pair.private_key
  unfolding signing_key_pair bytes_to_base64
  private_text sk pair made = at (R.get_public_key sk) (R.btoa (binary_text [] sk)) made
    where
      paired : Bytes → Option Bytes → Option SigningKeyPair
      paired private_key public_key =
          public_key then (λ text. some (record { private_key = private_key; public_key = text }))

      last :
          (t : Bytes) (o : Option Bytes) → paired t o ≡ some pair → some t ≡ some pair.private_key
      last t none e = cc e
      last t (some text) e = ap (λ o. o then (λ (q : SigningKeyPair). some q.private_key)) e

      at :
          (public : Option Bytes) (o : Option Bytes)
          → (public then (λ pk. o then (λ t. paired t (R.btoa (binary_text [] pk))))) ≡ some pair
          → o ≡ some pair.private_key
      at none o e = cc e
      at (some pk) none e = cc e
      at (some pk) (some t) e = last t (R.btoa (binary_text [] pk)) e

  module _ (join : List Bytes → Bytes) (sk cwd : Bytes) (pair : SigningKeyPair)
      (files : Files) where
    generate_lem :
        (force : Bool)
        → signing_key_pair R sk ≡ some pair
        → (force ≡ true) ⊎ (files (resolve_signing_key_path join cwd) ≡ none)
        → generate_and_write_signing_key join R no_faults sk force cwd files
          ≡ write_key join R writes (resolve_signing_key_path join cwd) pair files
    unfolding generate_and_write_signing_key
    generate_lem true made free =
        ap (λ o. with_pair join R no_faults (resolve_signing_key_path join cwd) o files) made
    generate_lem false made (inl e) = cc e
    generate_lem false made (inr free) =
        let p = resolve_signing_key_path join cwd in
        ap (λ o. unless_there join R (read_contents join false o) no_faults sk p files) free
        ∙ ap (λ o. with_pair join R no_faults p o files) made

    written_key_lem :
        NoSpace pair.private_key
        → let p = resolve_signing_key_path join cwd in
          trimmed join (read_contents join false (written join R p pair.private_key files p))
          ≡ ok pair.private_key
    written_key_lem clean =
        let p = resolve_signing_key_path join cwd in
        let file : KeyFile = record {
          contents = pair.private_key;
          mode = mode_of join R (files p);
        } in
        ap (λ b. trimmed join (read_contents join false (if b then some file else files p)))
          (bytes_eq_refl p)
        ∙ ap ok (trim-NoSpace pair.private_key clean)

    load_lem :
        (variable : Option Bytes)
        → IsUnset variable
        → NoSpace pair.private_key
        → load_signing_private_key join false cwd variable
            (written join R (resolve_signing_key_path join cwd) pair.private_key files)
          ≡ ok pair.private_key
    unfolding load_signing_private_key
    load_lem (some (c ∷ rest)) unset clean = absurd unset
    load_lem (some []) unset clean = written_key_lem clean
    load_lem none unset clean = written_key_lem clean

  module _ (L : IsLawful R) (join : List Bytes → Bytes) where
    -- For keys, base64 without white space and signatures that work as documented, where no call
    -- fails and `SALVE_PUSH_SIGNING_KEY` is not set or is empty: with force, or where there is no
    -- key file, `keys generate` gives a public key. The command `release`, on the files that this
    -- leaves and for a bundle that can be read, then sends a request with its options, its bytes,
    -- their hash, and a signature that this public key verifies.
    pub generated_key-signs :
        (sk pk cwd bytes : Bytes) (force : Bool) (files : Files) (read_file : Bytes → Option Bytes)
        (params : ReleaseParams) (variable : Option Bytes)
        → IsUnset variable
        → AllBytes sk
        → R.get_public_key sk ≡ some pk
        → ((b t : Bytes) → R.btoa b ≡ some t → NoSpace t)
        → (force ≡ true) ⊎ (files (resolve_signing_key_path join cwd) ≡ none)
        → read_file params.bundle_path ≡ some bytes
        → (made : GeneratedKey) × (files' : Files) × (request : UploadRequest) × (signature : Bytes)
          × (generate_and_write_signing_key join R no_faults sk force cwd files ≡ (ok made, files'))
          × (release_command join R false cwd variable read_file params files' ≡ some request)
          × (request.fields
              ≡ form_fields params (record {
                bundle_hash = sha256_hex R bytes;
                signature = signature;
                bundle_bytes = bytes;
              }))
          × (request.bundle ≡ bytes)
          × (verify_release R made.public_key (params_input params (sha256_hex R bytes)) signature
              ≡ true)
    unfolding release_command publish_release build_release_payload form_fields
    generated_key-signs sk pk cwd bytes force files read_file params variable unset all public clean
          free file =
        let input = params_input params (sha256_hex R bytes) in
        let (pair, signature, paired, signed, verified) =
          verify_release-sign_release R L sk pk input all public in
        let p = resolve_signing_key_path join cwd in
        let after = written join R p pair.private_key files in
        let payload : ReleasePayload = record {
          bundle_hash = sha256_hex R bytes;
          signature = signature;
          bundle_bytes = bytes;
        } in
        let with_key : ReleaseParams = record params { private_key = pair.private_key } in
        (
          record { public_key = pair.public_key; key_path = p },
          after,
          upload_request with_key payload,
          signature,
          generate_lem join sk cwd pair files force paired free,
          ap (signed_with join R read_file params) (
                load_lem join sk cwd pair files variable unset
                  (clean (binary_text [] sk) pair.private_key (private_text sk pair paired)))
              ∙ rw file (rw signed),
          refl,
          refl,
          verified,
        )

  -- A key file that is there is kept without force, but only where it can be read: if the read
  -- fails, it is overwritten, and keeps its mode.
  pub unreadable_overwritten :
      (join : List Bytes → Bytes) (sk cwd : Bytes) (pair : SigningKeyPair) (old : KeyFile)
      (files : Files)
      → signing_key_pair R sk ≡ some pair
      → files (resolve_signing_key_path join cwd) ≡ some old
      → (generate_and_write_signing_key join R no_faults sk false cwd files
          ≡ (err key_exists, files))
        × (files' : Files) × (generate_and_write_signing_key join R
              (record no_faults { read = true })
              sk
              false
              cwd
              files
            ≡ (
              ok (record {
                public_key = pair.public_key;
                key_path = resolve_signing_key_path join cwd;
              }),
              files',
            ))
        × (files' (resolve_signing_key_path join cwd)
            ≡ some (record { contents = pair.private_key; mode = old.mode }))
  unfolding generate_and_write_signing_key
  unreadable_overwritten join sk cwd pair old files made there =
      let p = resolve_signing_key_path join cwd in
      let unread = record no_faults { read = true } in
      (
        ap (λ o. unless_there join R (read_contents join false o) no_faults sk p files) there,
        written join R p pair.private_key files,
        ap (λ o. with_pair join R unread p o files) made,
        ap
              (λ b.
                if b
                then some (record { contents = pair.private_key; mode = mode_of join R (files p) })
                else files p)
              (bytes_eq_refl p)
            ∙ ap (λ o. some (record { contents = pair.private_key; mode = mode_of join R o }))
                there,
      )

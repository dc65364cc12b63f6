-- ===== src/Cli/Keys/Tests.antt =====
-- A key in an empty project, and a release that it signs.
use mathlib.Core.Path.{subst}
use salve_push.Base.{
  ℕ, ◌+◌, ◌-◌, ◌≡◌, inr, refl, ap, ap₂, false, true, none, some, List, [], ◌∷◌, Bytes, codes, map,
  arith,
}
use salve_push.Protocol.{Runtime, join, sha256_hex, verify_release}
use salve_push.Protocol.Laws.{IsLawful}
use salve_push.Cli.{UploadRequest, form_fields, params_input}
use salve_push.Cli.Keys.{
  Files, ok, GeneratedKey, is_space, generate_and_write_signing_key, release_command,
}
use salve_push.Cli.Keys.Signs.{NoSpace, no_faults, generated_key-signs}
use salve_push.Sdk.Tests.{runtime, runtime-IsLawful, params}

-- Its base64 has no white space.
abbrev spaceless : Runtime
spaceless = record runtime {
  btoa = λ t. some (map (λ c. c + 100000) t);
  atob = λ t. some (map (λ c. c - 100000) t);
}

read_back : (t : Bytes) → map (λ (c : ℕ). c - 100000) (map (λ c. c + 100000) t) ≡ t
read_back [] = refl
read_back (c ∷ rest) = ap₂ (λ d ds. d ∷ ds) (omega arith) (read_back rest)

spaceless-IsLawful : IsLawful spaceless
spaceless-IsLawful = record {
  atob-btoa = λ bytes h. (map (λ c. c + 100000) bytes, refl, ap some (read_back bytes));
  public_key-AllBytes = λ sk pk e. runtime-IsLawful.public_key-AllBytes sk pk e;
  verify-sign = λ m sk pk e. runtime-IsLawful.verify-sign m sk pk e;
}

not_space : (c : ℕ) → is_space (c + 100000) ≡ false
not_space c = ground arith

shifted-NoSpace : (b : Bytes) → NoSpace (map (λ c. c + 100000) b)
shifted-NoSpace [] = tt
shifted-NoSpace (c ∷ rest) = (not_space c, shifted-NoSpace rest)

spaceless-NoSpace : (b t : Bytes) → spaceless.btoa b ≡ some t → NoSpace t
spaceless-NoSpace b t e = subst NoSpace (some_eq e) (shifted-NoSpace b)
  where
    some_eq : {x y : Bytes} → some x ≡ some y → x ≡ y
    some_eq e = cc e

abbrev slashes : List Bytes → Bytes
slashes parts = join (codes "/") parts

abbrev no_files : Files
no_files path = none

generated_key-signs_example :
    (made : GeneratedKey) × (files' : Files) × (request : UploadRequest) × (signature : Bytes)
    × (generate_and_write_signing_key slashes spaceless no_faults
          (5 ∷ [])
          false
          (codes "p")
          no_files
        ≡ (ok made, files'))
    × (release_command slashes spaceless false
          (codes "p")
          (some [])
          (λ _. some (7 ∷ 8 ∷ []))
          params
          files'
        ≡ some request)
    × (request.fields
        ≡ form_fields params (record {
          bundle_hash = sha256_hex spaceless (7 ∷ 8 ∷ []);
          signature = signature;
          bundle_bytes = 7 ∷ 8 ∷ [];
        }))
    × (request.bundle ≡ 7 ∷ 8 ∷ [])
    × (verify_release spaceless made.public_key
          (params_input params (sha256_hex spaceless (7 ∷ 8 ∷ [])))
          signature
        ≡ true)
generated_key-signs_example =
    generated_key-signs spaceless spaceless-IsLawful slashes (5 ∷ []) (5 ∷ []) (codes "p")
      (7 ∷ 8 ∷ []) false no_files (λ _. some (7 ∷ 8 ∷ [])) params (some []) tt (omega arith, tt)
      refl spaceless-NoSpace (inr refl) refl

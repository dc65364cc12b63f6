-- ===== src/Protocol.antt =====
-- packages/protocol/src/signing.ts: the canonical text of a release, and its signature.
pub mod Laws
use salve_push.Base.{◌%◌, Bool, false, Option, none, some, List, [], ◌∷◌, ◌++◌, Bytes, codes, map}

-- What the file calls of @noble/ed25519, @noble/hashes and the JavaScript runtime. `none` stands
-- for a call that throws. A string is the list of its code units.
pub record Runtime : Type 0 where
  pub sha256 : Bytes → Bytes
  pub bytes_to_hex : Bytes → Bytes
  pub get_public_key : Bytes → Option Bytes
  pub sign : Bytes → Bytes → Option Bytes
  pub verify : Bytes → Bytes → Bytes → Option Bool
  pub encode : Bytes → Bytes
  pub btoa : Bytes → Option Bytes
  pub atob : Bytes → Option Bytes

pub record ReleaseSigningInput : Type 0 where
  pub bundle_hash : Bytes
  pub version : Bytes
  pub platform : Bytes
  pub channel : Bytes
  pub runtime_version : Bytes

pub record SigningKeyPair : Type 0 where
  pub private_key : Bytes
  pub public_key : Bytes

-- The chain of calls of which the first that throws ends the rest.
infixl 5 ◌>>=◌
abbrev pub ◌>>=◌ : {A B : Type 0} → Option A → (A → Option B) → Option B
none >>= f = none
some a >>= f = f a

-- `array.join(separator)`
abbrev pub join : Bytes → List Bytes → Bytes
join separator [] = []
join separator (text ∷ []) = text
join separator (text ∷ other ∷ rest) = text ++ (separator ++ join separator (other ∷ rest))

-- The loop that appends `String.fromCharCode(byte)`.
abbrev pub binary_text : Bytes → Bytes → Bytes
binary_text binary [] = binary
binary_text binary (byte ∷ rest) = binary_text (binary ++ (byte ∷ [])) rest

unfoldable pub canonical_release_message : ReleaseSigningInput → Bytes
canonical_release_message input = join (codes "\n") (
    input.bundle_hash ∷ input.version ∷ input.platform ∷ input.channel ∷ input.runtime_version ∷ [])

-- The `catch` block of `verifyRelease`.
abbrev pub or_false : Option Bool → Bool
or_false none = false
or_false (some b) = b

module _ (R : Runtime) where
  unfoldable pub bytes_to_base64 : Bytes → Option Bytes
  bytes_to_base64 bytes = R.btoa (binary_text [] bytes)

  -- An element of a `Uint8Array` keeps the low eight bits of what is stored.
  unfoldable pub base64_to_bytes : Bytes → Option Bytes
  base64_to_bytes base64 = do binary ← R.atob base64; some (map (λ c. c % 256) binary)

  unfoldable pub sha256_hex : Bytes → Bytes
  sha256_hex bytes = R.bytes_to_hex (R.sha256 bytes)

  -- `generateSigningKeyPair` with the private key that was drawn.
  unfoldable pub signing_key_pair : Bytes → Option SigningKeyPair
  signing_key_pair private_key = do
    public_key ← R.get_public_key private_key
    private_text ← bytes_to_base64 private_key
    public_text ← bytes_to_base64 public_key
    some (record { private_key = private_text; public_key = public_text })

  unfoldable pub sign_release : Bytes → ReleaseSigningInput → Option Bytes
  sign_release private_key_base64 input = do
    private_key ← base64_to_bytes private_key_base64
    signature ← R.sign (R.encode (canonical_release_message input)) private_key
    bytes_to_base64 signature

  -- The `try` block of `verifyRelease`.
  unfoldable pub try_verify : Bytes → ReleaseSigningInput → Bytes → Option Bool
  try_verify public_key_base64 input signature_base64 = do
    public_key ← base64_to_bytes public_key_base64
    signature ← base64_to_bytes signature_base64
    R.verify signature (R.encode (canonical_release_message input)) public_key

  unfoldable pub verify_release : Bytes → ReleaseSigningInput → Bytes → Bool
  verify_release public_key_base64 input signature_base64 =
      or_false (try_verify public_key_base64 input signature_base64)

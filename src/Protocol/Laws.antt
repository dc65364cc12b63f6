-- ===== src/Protocol/Laws.antt =====
-- What is signed is verified, and the signed text says which release it is.
use salve_push.Base.{
  ◌%◌, ◌<◌, ◌≡◌, ◌≢◌, refl, sym, ap, ap₂, ◌∙◌, true, some, [], ◌∷◌, ◌++◌, Bytes, map, arith,
}
use mathlib.Core.List.{append_assoc, append-nil}
use salve_push.Protocol.{
  Runtime, or_false, ReleaseSigningInput, SigningKeyPair, ◌>>=◌, binary_text,
  canonical_release_message, bytes_to_base64, base64_to_bytes, signing_key_pair, sign_release,
  try_verify, verify_release,
}

abbrev pub AllBytes : Bytes → Type 0
AllBytes [] = Unit {0}
AllBytes (b ∷ bs) = (b < 256) × AllBytes bs

-- What signing relies on: base64 of bytes is decoded to them, keys and signatures are bytes, and
-- a key that has a public key signs, with a signature that this public key verifies.
pub record IsLawful (R : Runtime) : Type 0 where
  pub atob-btoa :
      (bytes : Bytes)
      → AllBytes bytes
      → (t : Bytes) × (R.btoa bytes ≡ some t) × (R.atob t ≡ some bytes)
  pub public_key-AllBytes : (sk pk : Bytes) → R.get_public_key sk ≡ some pk → AllBytes pk
  pub verify-sign :
      (m sk pk : Bytes)
      → R.get_public_key sk ≡ some pk
      → (s : Bytes) × (R.sign m sk ≡ some s) × AllBytes s × (R.verify s m pk ≡ some true)

binary_text_append : (acc bytes : Bytes) → binary_text acc bytes ≡ acc ++ bytes
binary_text_append acc [] = sym (append-nil acc)
binary_text_append acc (b ∷ bs) =
    binary_text_append (acc ++ (b ∷ [])) bs ∙ append_assoc acc (b ∷ []) bs

low_bytes : (bytes : Bytes) → AllBytes bytes → map (λ c. c % 256) bytes ≡ bytes
low_bytes [] h = refl
low_bytes (b ∷ bs) (small, rest) = ap₂ (λ c cs. c ∷ cs) (omega arith) (low_bytes bs rest)

module _ (R : Runtime) (L : IsLawful R) where
  -- Bytes survive the way through base64.
  pub base64_to_bytes-bytes_to_base64 :
      (bytes : Bytes)
      → AllBytes bytes
      → (t : Bytes) × (bytes_to_base64 R bytes ≡ some t) × (base64_to_bytes R t ≡ some bytes)
  unfolding bytes_to_base64 base64_to_bytes
  base64_to_bytes-bytes_to_base64 bytes h =
      let (t, there, back) = L.atob-btoa bytes h in
      (
        t,
        ap R.btoa (binary_text_append [] bytes) ∙ there,
        ap (λ o. o >>= (λ binary. some (map (λ c. c % 256) binary))) back
            ∙ ap some (low_bytes bytes h),
      )

  -- For keys, base64 and signatures that work as documented: a private key of bytes that has a
  -- public key gives a pair, the private half of the pair signs every release, and its public half
  -- verifies that signature for the release.
  pub verify_release-sign_release :
      (sk pk : Bytes) (input : ReleaseSigningInput)
      → AllBytes sk
      → R.get_public_key sk ≡ some pk
      → (pair : SigningKeyPair) × (signature : Bytes) × (signing_key_pair R sk ≡ some pair)
        × (sign_release R pair.private_key input ≡ some signature)
        × (verify_release R pair.public_key input signature ≡ true)
  unfolding signing_key_pair sign_release verify_release try_verify
  verify_release-sign_release sk pk input bytes public =
      let message = R.encode (canonical_release_message input) in
      let (sk64, sk_there, sk_back) = base64_to_bytes-bytes_to_base64 sk bytes in
      let (pk64, pk_there, pk_back) =
        base64_to_bytes-bytes_to_base64 pk (L.public_key-AllBytes sk pk public) in
      let (s, signed, s_bytes, verified) = L.verify-sign message sk pk public in
      let (s64, s_there, s_back) = base64_to_bytes-bytes_to_base64 s s_bytes in
      let accepted : try_verify R pk64 input s64 ≡ some true = rw pk_back (rw s_back verified) in
      (
        record { private_key = sk64; public_key = pk64 },
        s64,
        rw public (rw sk_there (rw pk_there)),
        rw sk_back (rw signed s_there),
        ap or_false accepted,
      )

abbrev pub NoNewline : Bytes → Type 0
NoNewline [] = Unit {0}
NoNewline (c ∷ cs) = (c ≢ b'\n') × NoNewline cs

-- Two texts with a line break behind a part that has none have the same part there.
line_cancel :
    (a b r s : Bytes)
    → NoNewline a
    → NoNewline b
    → a ++ (b'\n' ∷ r) ≡ b ++ (b'\n' ∷ s)
    → (a ≡ b) × (r ≡ s)
line_cancel [] [] r s ha hb e = (refl, cc e)
line_cancel [] (c ∷ b) r s ha (ne, hb) e = absurd (ne (cc e))
line_cancel (c ∷ a) [] r s (ne, ha) hb e = absurd (ne (cc e))
line_cancel (c ∷ a) (d ∷ b) r s (_, ha) (_, hb) e =
    let (same, rest) = line_cancel a b r s ha hb (cc e) in (ap₂ (λ x xs. x ∷ xs) (cc e) same, rest)

-- The four fields in front of the last.
pub record IsOneLine (input : ReleaseSigningInput) : Type 0 where
  pub hash_line : NoNewline input.bundle_hash
  pub version_line : NoNewline input.version
  pub platform_line : NoNewline input.platform
  pub channel_line : NoNewline input.channel

-- Two releases whose bundle hash, version, platform and channel have no newline and that have the
-- same canonical message are the same.
pub canonical_release_message_injective :
    (a b : ReleaseSigningInput)
    → IsOneLine a
    → IsOneLine b
    → canonical_release_message a ≡ canonical_release_message b
    → a ≡ b
unfolding canonical_release_message
canonical_release_message_injective a b ha hb e =
    let (hash, e1) = line_cancel a.bundle_hash b.bundle_hash _ _ ha.hash_line hb.hash_line e in
    let (version, e2) = line_cancel a.version b.version _ _ ha.version_line hb.version_line e1 in
    let (platform, e3) =
      line_cancel a.platform b.platform _ _ ha.platform_line hb.platform_line e2 in
    let (channel, runtime) =
      line_cancel a.channel b.channel _ _ ha.channel_line hb.channel_line e3 in
    λ i. record {
      bundle_hash = hash i;
      version = version i;
      platform = platform i;
      channel = channel i;
      runtime_version = runtime i;
    }

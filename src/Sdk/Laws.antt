-- ===== src/Sdk/Laws.antt =====
-- Only what was verified reaches the native module.
use salve_push.Base.{
  ◌≡◌, refl, sym, ap, ◌∙◌, Bool, true, false, Option, none, some, List, [], ◌∷◌, ◌++◌, Bytes,
  bytes_eq, bytes_eq-true, if◌then◌else◌,
}
use mathlib.Core.Path.{subst}
use salve_push.Protocol.{Runtime, sha256_hex, verify_release}
use salve_push.Sdk.Update.{
  SalvePushConfig, UpdateInfo, Result, ok, err, Response, Network, or_reject, ◌>>=◌, signing_input,
  bundle_url, failed_response, download_failed, hash_mismatch, signature_failed, verify_bundle,
  read_bundle, download_and_verify_bundle,
}
use salve_push.Sdk.Facade.{
  Variables, configure, configured, require_config, start_download, finish_download, start_install,
  finish_install, downloaded,
}
use salve_push.Sdk.Calls.{System, initial_system, Step, Reach, here, next, IsVerified}
use salve_push.Sdk.Calls

-- What a chain with an `ok` at its end had at its start.
or_reject-eq-ok :
    {A B : Type 0} (o : Option A) (f : A → Result B) {b : B}
    → (or_reject o >>= f) ≡ ok b
    → (a : A) × (f a ≡ ok b)
or_reject-eq-ok none f e = cc e
or_reject-eq-ok (some a) f e = (a, e)

both_true :
    (hash signature : Bool) (bytes : Bytes) {bundle : Bytes}
    → (if hash then (if signature then ok bytes else err signature_failed) else err hash_mismatch)
      ≡ ok bundle
    → (hash ≡ true) × (signature ≡ true) × (bytes ≡ bundle)
both_true true true bytes e = (refl, refl, cc e)
both_true true false bytes e = cc e
both_true false signature bytes e = cc e

module _ (R : Runtime) where
  verify_bundle-checks :
      (c : SalvePushConfig) (u : UpdateInfo) (bytes bundle : Bytes)
      → verify_bundle R c u bytes ≡ ok bundle
      → (sha256_hex R bundle ≡ u.bundle_hash)
        × (verify_release R c.signing_public_key (signing_input u) u.signature ≡ true)
  unfolding verify_bundle
  verify_bundle-checks c u bytes bundle e =
      let (hash, signed, same) =
        both_true (bytes_eq (sha256_hex R bytes) u.bundle_hash)
          (verify_release R c.signing_public_key (signing_input u) u.signature) bytes e in
      (ap (sha256_hex R) (sym same) ∙ bytes_eq-true (sha256_hex R bytes) u.bundle_hash hash, signed)

  read_bundle-verifies :
      (c : SalvePushConfig) (u : UpdateInfo) (is_ok : Bool) (response : Response) (bundle : Bytes)
      → (if is_ok
          then or_reject response.body >>= verify_bundle R c u
          else failed_response response (download_failed response.status))
        ≡ ok bundle
      → (bytes : Bytes) × (verify_bundle R c u bytes ≡ ok bundle)
  read_bundle-verifies c u true response bundle e = or_reject-eq-ok response.body _ e
  read_bundle-verifies c u false response bundle e =
      let (text, e') =
        or_reject-eq-ok response.body (λ _. err (download_failed response.status)) e in
      cc e'

  -- A bundle that is returned has the hash of its update, and the update is signed.
  pub download-checks :
      (N : Network) (c : SalvePushConfig) (u : UpdateInfo) (bundle : Bytes)
      → download_and_verify_bundle R N c u ≡ ok bundle
      → (sha256_hex R bundle ≡ u.bundle_hash)
        × (verify_release R c.signing_public_key (signing_input u) u.signature ≡ true)
  unfolding download_and_verify_bundle read_bundle
  download-checks N c u bundle e =
      let (response, e') = or_reject-eq-ok (N.fetch (bundle_url c u.id)) (read_bundle R c u) e in
      let (bytes, e'') = read_bundle-verifies c u response.is_ok response bundle e' in
      verify_bundle-checks c u bytes bundle e''

module _ (R : Runtime) (Trusted : SalvePushConfig → Type 0) where
  abbrev IsTrusted : Option SalvePushConfig → Type 0
  IsTrusted none = Unit {0}
  IsTrusted (some c) = Trusted c

  -- The two variables of a downloaded update belong together.
  abbrev IsHeld : Option Bytes → Option Bytes → Type 0
  IsHeld none none = Unit {0}
  IsHeld (some bundle) (some id) = IsVerified R Trusted (id, bundle)
  IsHeld _ _ = ⊥

  abbrev AllTrusted : List (SalvePushConfig × UpdateInfo) → Type 0
  AllTrusted [] = Unit {0}
  AllTrusted ((c, u) ∷ rest) = Trusted c × AllTrusted rest

  abbrev pub AllVerified : List (Bytes × Bytes) → Type 0
  AllVerified [] = Unit {0}
  AllVerified (call ∷ rest) = IsVerified R Trusted call × AllVerified rest

  record Inv (s : System) : Type 0 where
    config : IsTrusted s.variables.config
    held : IsHeld s.variables.verified_bundle s.variables.verified_bundle_release_id
    downloads : AllTrusted s.downloads
    calls : AllVerified s.native_calls

  start_download-Trusted :
      (o : Option SalvePushConfig) (c : SalvePushConfig)
      → IsTrusted o
      → (configured o >>= (λ _. configured o)) ≡ ok c
      → Trusted c
  start_download-Trusted none c h e = cc e
  start_download-Trusted (some d) c h e = subst Trusted (cc e) h

  AllTrusted-split :
      (before after : List (SalvePushConfig × UpdateInfo)) (c : SalvePushConfig) (u : UpdateInfo)
      → AllTrusted (before ++ ((c, u) ∷ after))
      → Trusted c × AllTrusted (before ++ after)
  AllTrusted-split [] after c u h = h
  AllTrusted-split ((d, v) ∷ before) after c u (first, rest) =
      let (trusted, others) = AllTrusted-split before after c u rest in (trusted, (first, others))

  downloaded-IsVerified :
      (bundle id : Option Bytes) (call : Bytes × Bytes)
      → IsHeld bundle id
      → downloaded bundle id ≡ ok call
      → IsVerified R Trusted call
  downloaded-IsVerified none id call h e = cc e
  downloaded-IsVerified (some bundle) none call h e = cc e
  downloaded-IsVerified (some bundle) (some []) call h e = cc e
  downloaded-IsVerified (some bundle) (some (c ∷ id)) call h e =
      subst (IsVerified R Trusted) (cc e) h

  start_install-IsVerified :
      (v : Variables) (call : Bytes × Bytes)
      → IsHeld v.verified_bundle v.verified_bundle_release_id
      → start_install v ≡ ok call
      → IsVerified R Trusted call
  unfolding start_install require_config
  start_install-IsVerified v call h e = at v.config e
    where
      at :
          (o : Option SalvePushConfig)
          → (configured o >>= (λ _. downloaded v.verified_bundle v.verified_bundle_release_id))
            ≡ ok call
          → IsVerified R Trusted call
      at none e' = cc e'
      at (some c) e' =
          downloaded-IsVerified v.verified_bundle v.verified_bundle_release_id call h e'

  Step-Inv : {s t : System} → Step R Trusted s t → Inv s → Inv t
  unfolding configure start_download require_config finish_download finish_install
  Step-Inv (Calls.configured s c trusted) h = record {
    config = trusted;
    held = h.held;
    downloads = h.downloads;
    calls = h.calls;
  }
  Step-Inv (Calls.download_started s c u e) h = record {
    config = h.config;
    held = h.held;
    downloads = (start_download-Trusted s.variables.config c h.config e, h.downloads);
    calls = h.calls;
  }
  Step-Inv (Calls.download_finished s N before after c u bundle e e') h =
      let (trusted, rest) = AllTrusted-split before after c u (subst AllTrusted e h.downloads) in
      let (hash, signed) = download-checks R N c u bundle e' in
      record {
        config = h.config;
        held = record {
          config = c;
          update = u;
          trusted = trusted;
          same_id = refl;
          hash = hash;
          signed = signed;
        };
        downloads = rest;
        calls = h.calls;
      }
  Step-Inv (Calls.download_failed s N before after c u x e e') h = record {
    config = h.config;
    held = h.held;
    downloads = (AllTrusted-split before after c u (subst AllTrusted e h.downloads)).1;
    calls = h.calls;
  }
  Step-Inv (Calls.install_started s id bundle e) h = record {
    config = h.config;
    held = h.held;
    downloads = h.downloads;
    calls = (start_install-IsVerified s.variables (id, bundle) h.held e, h.calls);
  }
  Step-Inv (Calls.install_finished s n e) h = record {
    config = h.config;
    held = tt;
    downloads = h.downloads;
    calls = h.calls;
  }
  Step-Inv (Calls.install_failed s n e) h = record {
    config = h.config;
    held = h.held;
    downloads = h.downloads;
    calls = h.calls;
  }

  Reach-Inv : {s t : System} → Inv s → Reach R Trusted s t → Inv t
  Reach-Inv h here = h
  Reach-Inv h (next r step) = Step-Inv step (Reach-Inv h r)

  -- However calls of the SDK overlap, and whatever the network gives, if the application only
  -- configures what is trusted: every bundle that the native module was given with an id was
  -- checked. Its hash is the one of an update with that id, which the key of a trusted
  -- configuration signed with the update's other data.
  pub native_calls-AllVerified :
      {s : System} → Reach R Trusted initial_system s → AllVerified s.native_calls
  native_calls-AllVerified r =
      (Reach-Inv (record { config = tt; held = tt; downloads = tt; calls = tt }) r).calls

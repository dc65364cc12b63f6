-- ===== src/Sdk/Tests.antt =====
-- Signatures, downloads and installations on small inputs.
mod Sync
mod Delivery
use mathlib.Core.Path.{subst}
use salve_push.Base.{
  ◌%◌, ◌≡◌, refl, ap, ◌∙◌, none, some, [], ◌∷◌, ◌++◌, Bytes, codes, bytes_eq, bytes_eq_refl,
  bytes_discrete, map, arith,
}
use salve_push.Protocol.{
  Runtime, ReleaseSigningInput, SigningKeyPair, canonical_release_message, verify_release,
  sha256_hex, base64_to_bytes, try_verify,
}
use salve_push.Protocol.Laws.{AllBytes, IsLawful, IsOneLine, canonical_release_message_injective}
use salve_push.Cli.{ReleaseParams}
use salve_push.Sdk.Update.{
  SalvePushConfig, UpdateInfo, ok, err, nothing_downloaded, Network, download_and_verify_bundle,
  read_bundle, verify_bundle, signing_input,
}
use salve_push.Sdk.Facade.{
  start_install, start_download, require_config, finish_download, configure,
}
use salve_push.Sdk.Calls.{
  System, initial_system, Reach, here, next, configured, download_started, download_finished,
  install_started, IsVerified,
}
use salve_push.Sdk.Laws.{native_calls-AllVerified}
use salve_push.Sdk.Published.{served}
use salve_push.Sdk.Races.{lost_download}

abbrev low : Bytes → Bytes
low bytes = map (λ b. b % 256) bytes

low-AllBytes : (bytes : Bytes) → AllBytes (low bytes)
low-AllBytes [] = tt
low-AllBytes (b ∷ bs) = (omega arith, low-AllBytes bs)

AllBytes-append : (xs ys : Bytes) → AllBytes xs → AllBytes ys → AllBytes (xs ++ ys)
AllBytes-append [] ys hx hy = hy
AllBytes-append (x ∷ xs) ys (h, hx) hy = (h, AllBytes-append xs ys hx hy)

-- Text is its own base64, a hash is the text, and a signature is the public key and the message.
abbrev pub runtime : Runtime
runtime = record {
  sha256 = λ b. b;
  bytes_to_hex = λ b. b;
  get_public_key = λ sk. some (low sk);
  sign = λ m sk. some (low sk ++ low m);
  verify = λ s m pk. some (bytes_eq s (pk ++ low m));
  encode = λ t. t;
  btoa = λ t. some t;
  atob = λ t. some t;
}

pub runtime-IsLawful : IsLawful runtime
runtime-IsLawful = record {
  atob-btoa = λ bytes h. (bytes, refl, refl);
  public_key-AllBytes = λ sk pk e. subst AllBytes (some_eq e) (low-AllBytes sk);
  verify-sign = λ m sk pk e. (
    low sk ++ low m,
    refl,
    AllBytes-append (low sk) (low m) (low-AllBytes sk) (low-AllBytes m),
    ap (λ key. some (bytes_eq (low sk ++ low m) (key ++ low m))) (some_eq' e)
        ∙ ap some (bytes_eq_refl (low sk ++ low m)),
  );
}
  where
    some_eq : {a b : Bytes} → some a ≡ some b → a ≡ b
    some_eq e = cc e

    some_eq' : {a b : Bytes} → some a ≡ some b → b ≡ a
    some_eq' e = cc e

abbrev input : ReleaseSigningInput
input = record {
  bundle_hash = 7 ∷ 8 ∷ [];
  version = codes "1";
  platform = codes "ios";
  channel = codes "p";
  runtime_version = codes "2";
}

abbrev pub pair : SigningKeyPair
pair = record { private_key = 5 ∷ []; public_key = 5 ∷ [] }

input-IsOneLine : IsOneLine input
input-IsOneLine = record {
  hash_line = ((λ e. cc e), ((λ e. cc e), tt));
  version_line = ((λ e. cc e), tt);
  platform_line = ((λ e. cc e), ((λ e. cc e), ((λ e. cc e), tt)));
  channel_line = ((λ e. cc e), tt);
}

canonical_release_message_injective_example : input ≡ input
canonical_release_message_injective_example =
    canonical_release_message_injective input input input-IsOneLine input-IsOneLine refl

abbrev pub params : ReleaseParams
params = record {
  server_url = codes "s";
  version = codes "1";
  platform = codes "ios";
  channel = codes "p";
  runtime_version = codes "2";
  bundle_path = codes "b";
  rollout_percentage = none;
  private_key = 5 ∷ [];
}

abbrev pub config : SalvePushConfig
config = record {
  server_url = codes "s";
  channel = codes "p";
  runtime_version = codes "2";
  platform = codes "ios";
  signing_public_key = 5 ∷ [];
}

abbrev network : Network
network = record { fetch = λ _. some (served (7 ∷ 8 ∷ [])); parse_releases = λ _. none }

abbrev pub update : UpdateInfo
update = record {
  id = 9 ∷ [];
  version = codes "1";
  platform = codes "ios";
  channel = codes "p";
  runtime_version = codes "2";
  bundle_hash = 7 ∷ 8 ∷ [];
  signature = 5 ∷ low (canonical_release_message input);
  size = 2;
}

downloads : download_and_verify_bundle runtime network config update ≡ ok (7 ∷ 8 ∷ [])
unfolding download_and_verify_bundle read_bundle verify_bundle verify_release try_verify
    base64_to_bytes sha256_hex signing_input canonical_release_message bytes_discrete
downloads = refl

abbrev Trusted : SalvePushConfig → Type 0
Trusted c = c ≡ config

-- The system behind a configuration and a download.
abbrev ready : System
ready = record {
  variables = finish_download update (7 ∷ 8 ∷ []) (configure config initial_system.variables);
  downloads = [];
  installing = 0;
  native_calls = [];
}

abbrev given : System
given = record ready { installing = 1; native_calls = (9 ∷ [], 7 ∷ 8 ∷ []) ∷ [] }

installs_given : Reach runtime Trusted initial_system given
unfolding start_install require_config finish_download configure start_download
installs_given =
    next
      (next
        (next (next here (configured initial_system config refl)) (
          download_started
            (record initial_system { variables = configure config initial_system.variables }) config
            update refl))
        (download_finished
          (record initial_system {
            variables = configure config initial_system.variables;
            downloads = (config, update) ∷ [];
          })
          network [] [] config update (7 ∷ 8 ∷ []) refl downloads))
      (install_started ready (9 ∷ []) (7 ∷ 8 ∷ []) refl)

native_calls-AllVerified_example : IsVerified runtime Trusted (9 ∷ [], 7 ∷ 8 ∷ []) × Unit {0}
native_calls-AllVerified_example = native_calls-AllVerified runtime Trusted installs_given

abbrev overlapping : System
overlapping = record given { downloads = (config, update) ∷ [] }

lost_download_example :
    (t : System) × Reach runtime Trusted overlapping t
    × (t.downloads ≡ [])
    × (t.native_calls ≡ (9 ∷ [], 7 ∷ 8 ∷ []) ∷ [])
    × (start_install t.variables ≡ err nothing_downloaded)
unfolding finish_download configure
lost_download_example =
    lost_download runtime Trusted overlapping network config config update [] (7 ∷ 8 ∷ []) 0 refl
      refl downloads refl

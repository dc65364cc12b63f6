-- ===== src/Storage/Tests/Kotlin.antt =====
-- The Kotlin storage on a small disk, and JSON objects as functions.
use salve_push.Base.{
  ◌≡◌, refl, sym, ap, false, none, some, [], ◌∷◌, Bytes, bytes_eq, bytes_eq_refl, bytes_discrete,
  bytes_eq-ne, if◌then◌else◌, codes,
}
use salve_push.Storage.Disk.{Disk, SalvePushState, bundle_exists}
use salve_push.Storage.Io.{ok, thrown}
use salve_push.Storage.Sound.{state_of}
use salve_push.Storage.Calm.{calm}
use salve_push.Storage.Operations.{or_empty}
use salve_push.Storage.Operations
use salve_push.Storage.Android
use salve_push.Storage.Android.State.{
  Value, absent, OrgJson, put_value, IsLawful, from_json, to_json, from_json-to_json, kotlin_json,
  kotlin_json-DecodesEncoded,
}
use salve_push.Storage.View.{view}
use salve_push.Storage.Android.Agree.{SameEffect, storages_agree}
use salve_push.Storage.Android.Unsound.{rename_fails, rename_unnoticed}
use salve_push.Storage.Tests.{json, json-DecodesEncoded, r3, disk}

abbrev org_json : OrgJson
org_json = record {
  Text = Bytes → Value;
  Object = Bytes → Value;
  empty = λ _. absent;
  put = λ k v o j. if bytes_eq j k then put_value v else o j;
  value = λ k o. o k;
  parse = λ o. some o;
  to_string = λ o. o;
  is_auto_rollback = λ _. false;
}

org_json-IsLawful : IsLawful org_json
org_json-IsLawful = record {
  value-put_self = λ k v o. ap (λ b. if b then put_value v else o k) (bytes_eq_refl k);
  value-put_ne = λ k j v o ne. ap (λ b. if b then put_value v else o j) (bytes_eq-ne j k ne);
  parse-to_string = λ o. (o, refl, (λ k. refl));
}

abbrev state : SalvePushState
state = record {
  current_release_id = some r3;
  previous_release_id = none;
  boot_status = codes "pending";
}

from_json-to_json_example : from_json org_json (to_json org_json state) ≡ some state
from_json-to_json_example = from_json-to_json org_json state org_json-IsLawful

-- The disk of the small device with the coders of org.json.
abbrev kotlin_disk : Disk (kotlin_json org_json)
kotlin_disk = record {
  state_text = some (to_json org_json (state_of disk));
  mount_marker = false;
  crash_marker = none;
  releases = disk.releases;
}

same_view : view json disk ≡ view (kotlin_json org_json) kotlin_disk
same_view =
    ap (λ o. record (view json disk) { state = or_empty o })
      (sym (from_json-to_json org_json (state_of disk) org_json-IsLawful))

storages_agree_example :
    SameEffect json
      (kotlin_json org_json)
      (Operations.install_update json r3 (9 ∷ []) (calm disk))
      (Android.install_update (kotlin_json org_json) r3 (9 ∷ []) (calm kotlin_disk))
    × SameEffect json
        (kotlin_json org_json)
        (Operations.confirm_boot json (calm disk))
        (Android.confirm_boot (kotlin_json org_json) (calm kotlin_disk))
    × SameEffect json
        (kotlin_json org_json)
        (Operations.resolve_bundle_path json (calm disk))
        (Android.resolve_bundle_path (kotlin_json org_json) (calm kotlin_disk))
    × SameEffect json
        (kotlin_json org_json)
        (Operations.rollback_to_previous_if_unconfirmed json (calm disk))
        (Android.rollback_to_previous_if_unconfirmed (kotlin_json org_json) (calm kotlin_disk))
    × SameEffect json
        (kotlin_json org_json)
        (Operations.get_current_release_id json (calm disk))
        (Android.get_current_release_id (kotlin_json org_json) (calm kotlin_disk))
storages_agree_example =
    storages_agree json (kotlin_json org_json) json-DecodesEncoded
      (kotlin_json-DecodesEncoded org_json org_json-IsLawful) r3 (9 ∷ []) disk kotlin_disk same_view

rename_unnoticed_example :
    (d' d'' : Disk json) × (Android.install_update json r3
        (9 ∷ [])
        (rename_fails json r3 (9 ∷ []) disk)
      ≡ (ok tt, calm d'))
    × ((state_of d').current_release_id ≡ some r3)
    × (bundle_exists r3 d' ≡ false)
    × (Operations.install_update json r3 (9 ∷ []) (rename_fails json r3 (9 ∷ []) disk)
        ≡ (thrown, calm d''))
    × (d''.state_text ≡ disk.state_text)
unfolding bytes_discrete
rename_unnoticed_example = rename_unnoticed json r3 (9 ∷ []) disk json-DecodesEncoded refl

-- ===== src/Storage/Android/State.antt =====
-- SalvePushState.kt and JSONObject+optNullableString.kt: the state as JSON.
use salve_push.Base.{
  ◌≡◌, ◌≢◌, refl, ap, ◌∙◌, Bool, Option, none, some, Bytes, codes, get_or, arith, ℕ,
}
use salve_push.Storage.Disk.{Json, DecodesEncoded, SalvePushState}
use salve_push.Protocol.{◌>>=◌}

-- The value of a key in a `JSONObject`: absent, an explicit null, a text, or something else with
-- the text that `getString` makes of it.
pub data Value : Type 0 where
  absent null : Value
  text other : Bytes → Value

-- What the code calls of org.json. `parse` is the constructor on a text, which may throw; to put
-- null takes a key away.
pub record OrgJson : Type 1 where
  pub Text : Type 0
  pub Object : Type 0
  pub empty : Object
  pub put : Bytes → Option Bytes → Object → Object
  pub value : Bytes → Object → Value
  pub parse : Text → Option Object
  pub to_string : Object → Text
  pub is_auto_rollback : Bytes → Bool

abbrev pub put_value : Option Bytes → Value
put_value none = absent
put_value (some t) = text t

-- A key has what was put there last, and a text that is parsed has the keys it was made from.
pub record IsLawful (O : OrgJson) : Type 0 where
  pub value-put_self :
      (k : Bytes) (v : Option Bytes) (o : O.Object) → O.value k (O.put k v o) ≡ put_value v
  pub value-put_ne :
      (k j : Bytes) (v : Option Bytes) (o : O.Object)
      → j ≢ k
      → O.value j (O.put k v o) ≡ O.value j o
  pub parse-to_string :
      (o : O.Object)
      → (o' : O.Object) × (O.parse (O.to_string o) ≡ some o')
        × ((k : Bytes) → O.value k o' ≡ O.value k o)

-- `optNullableString`
unfoldable pub opt_nullable_string : Value → Option Bytes
opt_nullable_string absent = none
opt_nullable_string null = none
opt_nullable_string (text t) = some t
opt_nullable_string (other t) = some t

-- `optString(key, fallback)`, which makes the text "null" of an explicit null.
abbrev pub opt_string : Bytes → Value → Bytes
opt_string fallback absent = fallback
opt_string fallback null = codes "null"
opt_string fallback (text t) = t
opt_string fallback (other t) = t

abbrev current_key : Bytes
current_key = codes "currentReleaseId"

abbrev previous_key : Bytes
previous_key = codes "previousReleaseId"

abbrev status_key : Bytes
status_key = codes "bootStatus"

current_key-previous_key : current_key ≢ previous_key
current_key-previous_key e =
    let first : ◌≡◌ {A = ℕ} 99 112 = ap (λ t. get_or t 0 0) e in omega arith

current_key-status_key : current_key ≢ status_key
current_key-status_key e = let first : ◌≡◌ {A = ℕ} 99 98 = ap (λ t. get_or t 0 0) e in omega arith

previous_key-status_key : previous_key ≢ status_key
previous_key-status_key e = let first : ◌≡◌ {A = ℕ} 112 98 = ap (λ t. get_or t 0 0) e in omega arith

module _ (O : OrgJson) where
  abbrev json_object : SalvePushState → O.Object
  json_object s =
      O.put status_key (some s.boot_status)
        (O.put previous_key s.previous_release_id (O.put current_key s.current_release_id O.empty))

  unfoldable pub to_json : SalvePushState → O.Text
  to_json s = O.to_string (json_object s)

  abbrev state_of_object : O.Object → SalvePushState
  state_of_object json = record {
    current_release_id = opt_nullable_string (O.value current_key json);
    previous_release_id = opt_nullable_string (O.value previous_key json);
    boot_status = opt_string (codes "confirmed") (O.value status_key json);
  }

  unfoldable pub from_json : O.Text → Option SalvePushState
  from_json raw = do json ← O.parse raw; some (state_of_object json)

  -- The coders that the storage uses.
  abbrev pub kotlin_json : Json
  kotlin_json = record {
    Text = O.Text;
    encode = to_json;
    decode = from_json;
    is_auto_rollback = O.is_auto_rollback;
  }

  opt_nullable_string-put_value : (o : Option Bytes) → opt_nullable_string (put_value o) ≡ o
  unfolding opt_nullable_string
  opt_nullable_string-put_value none = refl
  opt_nullable_string-put_value (some t) = refl

  -- If JSON objects keep what was put and survive printing and parsing: a state that `toJson`
  -- wrote is read back by `fromJson` as it was.
  pub from_json-to_json : (s : SalvePushState) → IsLawful O → from_json (to_json s) ≡ some s
  unfolding from_json to_json
  from_json-to_json s L =
      let (o, parsed, same) = L.parse-to_string (json_object s) in
      let first = O.put current_key s.current_release_id O.empty in
      let second = O.put previous_key s.previous_release_id first in
      let current : opt_nullable_string (O.value current_key o) ≡ s.current_release_id =
        ap opt_nullable_string (
          same current_key
          ∙ L.value-put_ne status_key current_key (some s.boot_status) second current_key-status_key
          ∙ L.value-put_ne previous_key current_key s.previous_release_id first
              current_key-previous_key
          ∙ L.value-put_self current_key s.current_release_id O.empty)
        ∙ opt_nullable_string-put_value s.current_release_id in
      let previous : opt_nullable_string (O.value previous_key o) ≡ s.previous_release_id =
        ap opt_nullable_string (
          same previous_key
          ∙ L.value-put_ne status_key previous_key (some s.boot_status) second
              previous_key-status_key
          ∙ L.value-put_self previous_key s.previous_release_id first)
        ∙ opt_nullable_string-put_value s.previous_release_id in
      let status : opt_string (codes "confirmed") (O.value status_key o) ≡ s.boot_status =
        ap (opt_string (codes "confirmed"))
          (same status_key ∙ L.value-put_self status_key (some s.boot_status) second) in
      ap (λ p. p >>= (λ json. some (state_of_object json))) parsed ∙ (λ i. some (record {
        current_release_id = current i;
        previous_release_id = previous i;
        boot_status = status i;
      }))

  -- So the storage may rely on its coders.
  pub kotlin_json-DecodesEncoded : IsLawful O → DecodesEncoded kotlin_json
  kotlin_json-DecodesEncoded L = λ s. from_json-to_json s L

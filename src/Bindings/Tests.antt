-- ===== src/Bindings/Tests.antt =====
-- The bindings over concrete promises, tables and classes.
mod Swift
mod Dispatch
use salve_push.Base.{
  ℕ, refl, true, false, Bytes, String, Option, none, some, List, [], ◌∷◌, if◌then◌else◌,
}
use text.Mathlib.Text.{◌==◌ as str_eq}
use salve_push.Bindings.Thrown.{Thrown, returns, throws, Table, FindsRegistered}
use salve_push.Bindings.Nitro.{pending}
use salve_push.Bindings.Nitro.Instance.{Book, book_promises}
use salve_push.Bindings.Android.{Java}
use salve_push.Bindings.Apple.{Results}
use salve_push.Bindings.Apple.Laws.{IsLawful}

-- An association list, newest first.
abbrev find {ℓ} : {V : Type ℓ} → String → List (String × V) → Option V
find name [] = none
find name ((key, v) ∷ rest) = if str_eq name key then some v else find name rest

abbrev pub table : (V : Type 0) → Table V
table V = record {
  State = List (String × V);
  register = λ name v s. (name, v) ∷ s;
  find = λ name s. find name s;
}

pub table-FindsRegistered : (V : Type 0) → FindsRegistered (table V)
table-FindsRegistered V name other v s = refl

-- A Kotlin object whose `installUpdate` gives a promise, and whose `getCurrentReleaseId` throws.
abbrev pub kotlin : Java book_promises
kotlin = record {
  JavaPart = ℕ;
  JString = Bytes;
  JArrayBuffer = Bytes;
  ArrayBuffer = Bytes;
  make_jstring = λ s. s;
  to_std_string = λ s. s;
  wrap = λ b. b;
  new_object = λ w. (1, w);
  hybrid_of = λ part. some part;
  is_instance = λ _. true;
  failed = λ _. 9;
  call_promise = λ part name arguments w. (returns tt, w);
  call_string = λ part name arguments w. (throws 7, w);
}

abbrev pub idle : Book
idle = record {
  next = 0;
  states = λ _. pending;
  java = none;
  resolve_queue = [];
  reject_queue = [];
}

abbrev pub results : Results ℕ
results = record {
  Result = λ A. Thrown ℕ A;
  with_value = λ A a. returns a;
  with_error = λ A e. throws e;
  has_error = λ A r. elim r [ throws _ ↦ true | _ ↦ false ];
  value = λ A r. elim r [ returns a ↦ some a | _ ↦ none ];
  error = λ A r. elim r [ throws e ↦ some e | _ ↦ none ];
}

pub results-IsLawful : IsLawful results
results-IsLawful = record {
  has_error-with_value = λ A a. refl;
  value-with_value = λ A a. refl;
  has_error-with_error = λ A e. refl;
  error-with_error = λ A e. refl;
}

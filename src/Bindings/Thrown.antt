-- ===== src/Bindings/Thrown.antt =====
-- A C++ call that returns, throws, or does what C++ leaves undefined.
use salve_push.Base.{◌≡◌, Option, some, String, if◌then◌else◌}
use text.Mathlib.Text.{◌==◌ as str_eq}

pub data Thrown (E A : Type 0) : Type 0 where
  returns : A → Thrown E A
  throws : E → Thrown E A
  undefined : Thrown E A

-- A table by names that NitroModules or the JNI keeps: methods, native functions, constructors.
pub record Table (V : Type 0) : Type 1 where
  pub State : Type 0
  pub register : String → V → State → State
  pub find : String → State → Option V

-- The last value that was registered under a name is found.
abbrev pub FindsRegistered : {V : Type 0} → Table V → Type 0
FindsRegistered {V} t =
    (name other : String) (v : V) (s : t.State)
    → t.find other (t.register name v s) ≡ (if str_eq other name then some v else t.find other s)

-- ===== src/Bindings/Android/OnLoad.antt =====
-- android/salvepushOnLoad.cpp and cpp-adapter.cpp: what loading the library registers.
use salve_push.Base.{◌≡◌, String, some, if◌then◌else◌}
use text.Mathlib.Text.{◌==◌ as str_eq}
use salve_push.Bindings.Thrown.{Table, FindsRegistered}
use salve_push.Bindings.Android.{
  Native, init_hybrid, Constructor, j_hybrid_create, register_all_natives, jni_on_load,
}

-- In tables that find what was registered last: once the library is loaded, the constructor of
-- "SalvePushNative" and the native function `initHybrid` are found under these names, and what is
-- found under any other is as before.
pub jni_on_load-finds :
    (natives : Table Native) (constructors : Table Constructor) (n : natives.State)
    (c : constructors.State) (name : String)
    → FindsRegistered natives
    → FindsRegistered constructors
    → let (n', c') = jni_on_load natives constructors (λ f. f (n, c)) in
      (natives.find name n'
        ≡ (if str_eq name "initHybrid" then some init_hybrid else natives.find name n))
      × (constructors.find name c' ≡ (
          if str_eq name "SalvePushNative" then some j_hybrid_create else constructors.find name c))
unfolding jni_on_load register_all_natives
jni_on_load-finds natives constructors n c name hn hc =
    (hn "initHybrid" name init_hybrid n, hc "SalvePushNative" name j_hybrid_create c)

-- ===== src/Bindings/Apple/Closures.antt =====
-- packages/sdk-react-native/nitrogen/generated/ios/SalvePushNative-Swift-Cxx-Bridge.hpp and .cpp:
-- Swift closures as C++ functions, and C++ functions as Swift sees them.
use salve_push.Base.{◌≡◌, refl, ap, Bool}
use salve_push.Bindings.Thrown.{returns}
use salve_push.Bindings.Apple.{Results, SwiftClass, create_object, get_pointer}

-- The Swift closures, `SalvePushNative::Func_void` and `Func_void_std__exception_ptr`.
pub record SwiftClosures (E World : Type 0) : Type 1 where
  pub Pointer : Type 0
  pub Closure : Type 0
  pub ErrorClosure : Type 0
  pub from_unsafe : Pointer → Closure
  pub error_from_unsafe : Pointer → ErrorClosure
  pub call : Closure → World → World
  pub call_error : ErrorClosure → E → World → World

-- `Func_void_Wrapper` and `Func_void_std__exception_ptr_Wrapper`
pub record FuncVoidWrapper (World : Type 0) : Type 0 where
  pub function : World → World

pub record FuncErrorWrapper (E World : Type 0) : Type 0 where
  pub function : E → World → World

module _ {World : Type 0} where
  unfoldable pub wrap_func_void : (World → World) → FuncVoidWrapper World
  wrap_func_void value = record { function = value }

  unfoldable pub wrapper_call : FuncVoidWrapper World → World → World
  wrapper_call wrapper w = wrapper.function w

module _ {E World : Type 0} where
  unfoldable pub wrap_func_error : (E → World → World) → FuncErrorWrapper E World
  wrap_func_error value = record { function = value }

  unfoldable pub error_wrapper_call : FuncErrorWrapper E World → E → World → World
  error_wrapper_call wrapper error w = wrapper.function error w

  module _ (C : SwiftClosures E World) where
    unfoldable pub create_func_void : C.Pointer → World → World
    create_func_void pointer w = C.call (C.from_unsafe pointer) w

    unfoldable pub create_func_error : C.Pointer → E → World → World
    create_func_error pointer error w = C.call_error (C.error_from_unsafe pointer) error w

    module _ (R : Results E) (S : SwiftClass R) where
      -- If a Swift object has the pointer that it was made from: an object that Swift passes to
      -- C++ and takes back is the same pointer, in both builds, and a closure that Swift passes to
      -- C++ and takes back wrapped does on each call what the closure does.
      pub bridge_round_trip :
          (debug : Bool) (object : S.Pointer) (closure : C.Pointer) (error : E) (w : World)
          → S.to_unsafe (S.from_unsafe object) ≡ object
          → (get_pointer R S debug (create_object R S object) ≡ returns object)
            × (wrapper_call (wrap_func_void (create_func_void closure)) w
                ≡ C.call (C.from_unsafe closure) w)
            × (error_wrapper_call (wrap_func_error (create_func_error closure)) error w
                ≡ C.call_error (C.error_from_unsafe closure) error w)
      unfolding get_pointer create_object wrapper_call wrap_func_void create_func_void
          error_wrapper_call wrap_func_error create_func_error
      bridge_round_trip debug object closure error w h = (ap returns h, refl, refl)

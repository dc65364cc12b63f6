-- ===== src/Bindings/Android/Lifetime.antt =====
-- packages/sdk-react-native/nitrogen/generated/android/c++/JHybridSalvePushNativeSpec.hpp: the
-- constructor and the destructor, and the global references that they hold.
use salve_push.Base.{ℕ, ◌+◌, ◌-◌, suc, ◌≡◌, List, [], ◌∷◌, length, arith}

-- The references of fbjni. `held` is the number of global references; `make_cxx_instance` is that
-- of `jni::HybridClass`.
pub record References : Type 1 where
  pub World : Type 0
  pub Local : Type 0
  pub Global : Type 0
  pub HybridData : Type 0
  pub make_global : Local → World → Global × World
  pub reset : Global → World → World
  pub with_class_loader : (World → World) → World → World
  pub make_cxx_instance : Local → World → HybridData × World
  pub held : World → ℕ

-- `make_global` makes one reference, `reset` gives one back, and a thread that is attached for a
-- call does that call.
pub record IsCounted (F : References) : Type 0 where
  pub held-make_global : (l : F.Local) (w : F.World) → F.held (F.make_global l w).1 ≡ suc (F.held w)
  pub held-reset : (g : F.Global) (w : F.World) → F.held (F.reset g w) ≡ F.held w - 1
  pub held-with_class_loader :
      (f : F.World → F.World) (w : F.World) → F.held (F.with_class_loader f w) ≡ F.held (f w)

module _ (F : References) where
  open F use {World, Local, Global, HybridData}

  -- `_javaPart`
  pub record JHybrid : Type 0 where
    pub java_part : Global

  unfoldable pub construct : Local → World → JHybrid × World
  construct part w =
      let (reference, w') = F.make_global part w in (record { java_part = reference }, w')

  unfoldable pub get_java_part : JHybrid → Global
  get_java_part object = object.java_part

  -- The destructor, which may run on any thread.
  unfoldable pub destruct : JHybrid → World → World
  destruct object w = F.with_class_loader (F.reset object.java_part) w

  -- `CxxPart::initHybrid`
  unfoldable pub init_hybrid_data : Local → World → HybridData × World
  init_hybrid_data this w = F.make_cxx_instance this w

  abbrev pub construct_all : List Local → World → List JHybrid × World
  construct_all [] w = ([], w)
  construct_all (part ∷ parts) w =
      let (object, w1) = construct part w in
      let (objects, w2) = construct_all parts w1 in (object ∷ objects, w2)

  abbrev pub destruct_all : List JHybrid → World → World
  destruct_all [] w = w
  destruct_all (object ∷ objects) w = destruct_all objects (destruct object w)

  module _ (C : IsCounted F) where
    held-construct_all :
        (parts : List Local) (w : World)
        → F.held (construct_all parts w).1 ≡ F.held w + length (construct_all parts w).0
    unfolding construct
    held-construct_all [] w = omega arith
    held-construct_all (part ∷ parts) w =
        let w1 = (construct part w).1 in
        omega (arith, held-construct_all parts w1, C.held-make_global part w)

    held-destruct_all :
        (objects : List JHybrid) (w : World)
        → F.held (destruct_all objects w) ≡ F.held w - length objects
    unfolding destruct
    held-destruct_all [] w = omega arith
    held-destruct_all (object ∷ objects) w =
        let w1 = destruct object w in
        omega (
          arith,
          held-destruct_all objects w1,
          C.held-with_class_loader (F.reset object.java_part) w,
          C.held-reset object.java_part w,
        )

    -- Objects hold one global reference each while they live, and give it back at their end.
    pub references_balanced :
        (parts : List Local) (w : World)
        → let (objects, w') = construct_all parts w in
          (F.held w' ≡ F.held w + length objects) × (F.held (destruct_all objects w') ≡ F.held w)
    references_balanced parts w =
        let (objects, w') = construct_all parts w in
        (
          held-construct_all parts w,
          omega (arith, held-construct_all parts w, held-destruct_all objects w'),
        )

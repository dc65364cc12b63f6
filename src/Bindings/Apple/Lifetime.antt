-- ===== src/Bindings/Apple/Lifetime.antt =====
-- HybridSalvePushNativeSpec_cxx.swift and SalvePushNative-Swift-Cxx-Bridge: the C++ part of one
-- Swift object, and the references that keep the two alive.
pub mod Counted
use salve_push.Base.{
  ℕ, zero, suc, ◌-◌, ◌≡◌, ◌==◌, Bool, true, false, Option, none, some, List, [], ◌∷◌, if◌then◌else◌,
}

-- The strong references on the Swift object, its weak pointer `__cxxPart`, and the C++ objects that
-- are alive, each with the number of its shared pointers. An address is never used again.
pub record Heap : Type 0 where
  pub strong : ℕ
  pub cxx_part : Option ℕ
  pub parts : List (ℕ × ℕ)
  pub next : ℕ

-- Unmanaged's `passRetained` and the end of a strong reference.
abbrev pub retain : Heap → Heap
retain h = record h { strong = suc h.strong }

abbrev pub release : Heap → Heap
release h = record h { strong = h.strong - 1 }

unfoldable pub to_unsafe : Heap → Heap
to_unsafe h = retain h

-- The reference of the pointer becomes the one of the variable that it is taken into.
unfoldable pub from_unsafe : Heap → Heap
from_unsafe h = h

-- Another shared pointer to the C++ object `id`.
abbrev pub share : ℕ → List (ℕ × ℕ) → List (ℕ × ℕ)
share id [] = []
share id ((other, count) ∷ rest) =
    let others = share id rest in
    if other == id then (other, suc count) ∷ rest else (other, count) ∷ others

-- One shared pointer less; the last one takes the object with it.
abbrev pub unshare : ℕ → List (ℕ × ℕ) → List (ℕ × ℕ)
unshare id [] = []
unshare id ((other, zero) ∷ rest) = let others = unshare id rest in (other, zero) ∷ others
unshare id ((other, suc zero) ∷ rest) =
    let others = unshare id rest in if other == id then rest else (other, 1) ∷ others
unshare id ((other, suc (suc count)) ∷ rest) =
    let others = unshare id rest in
    if other == id then (other, suc count) ∷ rest else (other, suc (suc count)) ∷ others

abbrev pub is_alive : ℕ → List (ℕ × ℕ) → Bool
is_alive id [] = false
is_alive id ((other, count) ∷ rest) =
    let others = is_alive id rest in if other == id then true else others

-- `lock()` of a weak pointer, without the count.
abbrev pub lock : Option ℕ → List (ℕ × ℕ) → Option ℕ
lock none parts = none
lock (some id) parts = if is_alive id parts then some id else none

-- `create_std__shared_ptr_HybridSalvePushNativeSpec_`: the variable `swiftPart` takes the reference
-- of the pointer, the object copies it into `_swiftPart`, and the variable ends.
unfoldable pub create_part : Heap → ℕ × Heap
unfolding from_unsafe
create_part h =
    let h1 = from_unsafe h in
    let h2 = record (retain h1) { parts = (h1.next, 1) ∷ h1.parts; next = suc h1.next } in
    (h1.next, release h2)

-- `weakify_std__shared_ptr_HybridSalvePushNativeSpec_`
unfoldable pub weakify : ℕ → Option ℕ
weakify strong = some strong

abbrev pub cached_or_new : Option ℕ → Heap → ℕ × Heap
cached_or_new (some id) h = (id, record h { parts = share id h.parts })
cached_or_new none h =
    let (id, h') = create_part (to_unsafe h) in (id, record h' { cxx_part = weakify id })

-- `getCxxPart`
unfoldable pub get_cxx_part : Heap → ℕ × Heap
get_cxx_part h = cached_or_new (lock h.cxx_part h.parts) h

-- The end of a shared pointer to the C++ object `id`. With the last one the object ends, and with it
-- its reference `_swiftPart`.
abbrev pub drop_part : ℕ → Heap → Heap
drop_part id h =
    let parts = unshare id h.parts in
    let h' = record h { parts = parts } in if is_alive id parts then h' else release h'

-- The Swift object as others use it: `owners` counts the strong references that are not held by a
-- C++ part.
pub data Step : Heap × ℕ → Heap × ℕ → Type 0 where
  own : (h : Heap) (owners : ℕ) → Step (h, suc owners) (retain h, suc (suc owners))
  disown : (h : Heap) (owners : ℕ) → Step (h, suc owners) (release h, owners)
  get : (h : Heap) (owners : ℕ) → Step (h, suc owners) ((get_cxx_part h).1, suc owners)
  -- An object that is taken out of its C++ part, by `get_std__shared_ptr_...` and `fromUnsafe`.
  take :
      (h : Heap) (owners id : ℕ)
      → is_alive id h.parts ≡ true
      → Step (h, owners) (from_unsafe (to_unsafe h), suc owners)
  copy :
      (h : Heap) (owners id : ℕ)
      → is_alive id h.parts ≡ true
      → Step (h, owners) (record h { parts = share id h.parts }, owners)
  drop :
      (h : Heap) (owners id : ℕ)
      → is_alive id h.parts ≡ true
      → Step (h, owners) (drop_part id h, owners)

pub data Reach (s : Heap × ℕ) : Heap × ℕ → Type 0 where
  here : Reach s s
  next : {t u : Heap × ℕ} → Reach s t → Step t u → Reach s u

-- A new object, with one owner.
abbrev pub new_object : Heap × ℕ
new_object = (record { strong = 1; cxx_part = none; parts = []; next = 0 }, 1)

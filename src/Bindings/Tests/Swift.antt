-- ===== src/Bindings/Tests/Swift.antt =====
-- The Swift class over a small implementation, and the references of one object.
use salve_push.Base.{ℕ, ◌+◌, ◌≤◌, ◌≡◌, refl, true, Bytes, none, some, [], length}
use salve_push.Bindings.Nitro.Instance.{book_promises}
use salve_push.Bindings.Apple.Laws.{with, caught}
use salve_push.Bindings.Apple.Swift.{Implementation}
use salve_push.Bindings.Apple.Lifetime.{
  Heap, new_object, Reach, here, next, get, drop, get_cxx_part, create_part, to_unsafe, from_unsafe,
  weakify, drop_part,
}
use salve_push.Bindings.Apple.Lifetime.Counted.{first_part, cxx_part-counted}

-- It installs, fails to confirm, and cannot say which release it runs.
abbrev pub implementation : Implementation book_promises
implementation = record {
  Object = ℕ;
  ArrayBuffer = Bytes;
  Buffer = Bytes;
  holder = λ b. b;
  install_update = λ object id bundle w. (with tt, w);
  notify_app_ready = λ object w. (caught 8, w);
  get_current_release_id = λ object w. (caught 7, w);
  size_of = λ object w. 16;
  memory_size = λ object w. 0;
  is_same = λ a b. true;
  dispose = λ object w. w;
  to_string = λ object w. ([], w);
  not_swift = 1;
}

-- The object is passed to C++ twice, and one of the pointers ends.
abbrev passed : Heap
passed = (get_cxx_part (get_cxx_part new_object.0).1).1

abbrev left : Heap
left = drop_part 0 passed

used : Reach new_object (left, 1)
unfolding get_cxx_part create_part to_unsafe from_unsafe weakify
used =
    next (next (next here (get new_object.0 0)) (get (get_cxx_part new_object.0).1 0))
      (drop passed 1 0 refl)

cxx_part-counted_example :
    (length left.parts ≤ 1)
    × (left.strong ≡ 1 + length left.parts)
    × ((get_cxx_part left).0 ≡ elim (first_part left.parts) [ none ↦ left.next | some id ↦ id ])
cxx_part-counted_example = cxx_part-counted left 1 used

-- ===== src/CrashHandler/Install/Paths.antt =====
-- The two marker paths in their 512-byte buffers.
use salve_push.Base.{
  ℕ, zero, suc, ◌+◌, ◌≤◌, ◌≡◌, ◌≢◌, refl, ap, [], ◌∷◌, ◌++◌, arith, Bytes, codes, length, get_or,
  length-append, take, take-all,
}
use salve_push.CrashHandler.Install.{crash_marker_name, mount_marker_name}

-- What a path buffer holds of a name.
abbrev pub stored_path : Bytes → Bytes
stored_path name = take 511 name

-- A base directory of at most 498 bytes leaves room for both names whole.
pub stored_path-short :
    (base : Bytes)
    → length base ≤ 498
    → (stored_path (crash_marker_name base) ≡ crash_marker_name base)
      × (stored_path (mount_marker_name base) ≡ mount_marker_name base)
unfolding crash_marker_name mount_marker_name
stored_path-short base h = (
  take-all 511 (crash_marker_name base) (omega (arith, length-append base (codes "/crash.marker"))),
  take-all 511 (mount_marker_name base) (omega (arith, length-append base (codes "/mount.marker"))),
)

append-injective : (base : Bytes) {s t : Bytes} → base ++ s ≡ base ++ t → s ≡ t
append-injective [] e = e
append-injective (c ∷ base) e = append-injective base (cc e)

-- Then the two markers are different files.
pub marker_names-ne : (base : Bytes) → crash_marker_name base ≢ mount_marker_name base
unfolding crash_marker_name mount_marker_name
marker_names-ne base e =
    let second : ◌≡◌ {A = ℕ} b'c' b'm' = ap (λ text. get_or text 1 0) (append-injective base e) in
    absurd (omega arith)

-- A prefix that ends with the first byte behind `base` shows nothing of what follows.
take-append_shared :
    (n : ℕ) (base : Bytes) (c : ℕ) (s t : Bytes)
    → n ≤ length base + 1
    → take n (base ++ (c ∷ s)) ≡ take n (base ++ (c ∷ t))
take-append_shared zero base c s t h = refl
take-append_shared (suc zero) [] c s t h = refl
take-append_shared (suc (suc n)) [] c s t h = absurd (omega arith)
take-append_shared (suc n) (b ∷ base) c s t h =
    ap (λ text. b ∷ text) (take-append_shared n base c s t (omega arith))

-- From 510 bytes on, what is cut off is all that tells the two names apart.
pub stored_path-long :
    (base : Bytes)
    → 510 ≤ length base
    → stored_path (crash_marker_name base) ≡ stored_path (mount_marker_name base)
unfolding crash_marker_name mount_marker_name
stored_path-long base h = take-append_shared 511 base b'/' _ _ (omega arith)

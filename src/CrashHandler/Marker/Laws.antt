-- ===== src/CrashHandler/Marker/Laws.antt =====
-- What `isMounted` and `writeCrashMarker` do, on every branch.
use salve_push.Base.{
  ℕ, ◌≤◌, ℤ, ◌≡◌, ap, ◌∙◌, Bool, Option, inl, inr, not, lt→ltb, ltb, le→leb, [], ◌∷◌, ◌++◌, arith,
  if◌then◌else◌, Bytes, length, take, take-all, take-append,
}
use salve_push.Posix.Kernel.{Kernel}
use salve_push.Posix.Files.{open_truncate, write_file, close_file}
use salve_push.Posix.Files.Laws.{
  can_open_read, can_open_truncate, open_read-cases, open_truncate-cases, replaced,
}
use salve_push.CrashHandler.State.{
  Process, returned, >>=-returned, when, syscall, syscall-eq, syscall_unit,
}
use salve_push.CrashHandler.Marker.{
  is_mounted, marker_text, write_buffer, write_json, mark_crash, write_opened, write_crash_marker,
  owner_only, json_size,
}
use salve_push.CrashHandler.Marker.Text.{IsInt32, length-marker_text}

-- Whether the mount marker can be opened.
abbrev pub mount_marker_opens : Process → Bool
mount_marker_opens p = can_open_read p.globals.mount_marker_path p.kernel

-- `isMounted` says whether the mount marker can be opened, and leaves the process as it was: no
-- descriptor stays open.
pub is_mounted_lem : (p : Process) → is_mounted p ≡ returned (mount_marker_opens p) p
unfolding is_mounted
is_mounted_lem p = elim (open_read-cases p.globals.mount_marker_path p.kernel) [
  | inl (cannot, e) ↦ ground arith
  | inr (fd, can, e, back) ↦ ground arith
]

-- The system after a crash marker was written, if it can be opened.
abbrev pub marked_kernel : ℤ → Bool → Process → Kernel
marked_kernel n mounted p =
    if can_open_truncate p.globals.crash_marker_path p.kernel
    then replaced p.globals.crash_marker_path owner_only (marker_text n (not mounted)) p.kernel
    else p.kernel

-- The process after a crash marker for signal `n` was written.
abbrev pub marked : ℤ → Process → Process
marked n p = record p { kernel = marked_kernel n (mount_marker_opens p) p }

marker_text_pos : (n : ℤ) (auto : Bool) → 1 ≤ length (marker_text n auto)
unfolding marker_text
marker_text_pos n auto = omega arith

-- A text shorter than its buffer is all of what `write` finds there.
buffer_text :
    (text : Bytes) → length text ≤ 255 → take (length text) (take 255 text ++ (0 ∷ [])) ≡ text
buffer_text text h =
    rw (take-all 255 text h)
      (take-append (length text) text (0 ∷ []) (omega arith) ∙ take-all _ text (omega arith))

write_buffer_lem :
    (fd : ℕ) (text : Bytes) (p : Process)
    → length text ≤ 255
    → write_buffer fd json_size (take 255 text) (length text) p
      ≡ returned tt (record p { kernel = write_file fd text p.kernel })
unfolding write_buffer
write_buffer_lem fd text p h = rw (le→leb (length text) 256 (omega arith), buffer_text text h)

write_json_lem :
    (fd : ℕ) (n : ℤ) (auto : Bool) (p : Process)
    → IsInt32 n
    → write_json fd n auto p
      ≡ returned tt
          (record p { kernel = close_file fd (write_file fd (marker_text n auto) p.kernel) })
unfolding write_json
write_json_lem fd n auto p h =
    let text = marker_text n auto in
    >>=-returned
      (when (ltb 0 (length text)) (write_buffer fd json_size (take 255 text) (length text)))
      (λ _. syscall_unit (close_file fd)) p
      (rw (lt→ltb 0 (length text) (marker_text_pos n auto))
        (write_buffer_lem fd text p (omega (arith, length-marker_text n auto h))))

mark_crash_lem :
    (n : ℤ) (mounted : Bool) (p : Process)
    → IsInt32 n
    → mark_crash n mounted p ≡ returned tt (record p { kernel = marked_kernel n mounted p })
unfolding mark_crash write_opened
mark_crash_lem n mounted p h =
    elim (open_truncate-cases p.globals.crash_marker_path owner_only (marker_text n (not mounted))
      p.kernel) [
        | inl (cannot, e) ↦ rw cannot (opened e)
        | inr (fd, k1, can, e, back) ↦ rw can (
            opened e
            ∙ write_json_lem fd n (not mounted) (record p { kernel = k1 }) h
            ∙ ap (λ k. returned tt (record p { kernel = k })) back)
      ]
  where
    opening : Kernel → Option ℕ × Kernel
    opening = open_truncate p.globals.crash_marker_path owner_only

    opened :
        {fd : Option ℕ} {k : Kernel}
        → opening p.kernel ≡ (fd, k)
        → mark_crash n mounted p ≡ write_opened n mounted fd (record p { kernel = k })
    opened e = >>=-returned (syscall opening) (write_opened n mounted) p (syscall-eq opening p e)

-- For any 32-bit signal number, `writeCrashMarker` returns, and reads only inside its buffer. If
-- the crash marker can be opened for writing, it holds the whole text, as far as there is room, with
-- `isAutoRollback` true exactly if the mount marker cannot be opened. No other file and no
-- descriptor changes. If not, nothing changes.
pub write_crash_marker_lem :
    (n : ℤ) (p : Process) → IsInt32 n → write_crash_marker n p ≡ returned tt (marked n p)
unfolding write_crash_marker
write_crash_marker_lem n p h =
    >>=-returned is_mounted (mark_crash n) p (is_mounted_lem p)
    ∙ mark_crash_lem n (mount_marker_opens p) p h

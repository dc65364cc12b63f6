-- ===== src/CrashHandler/Marker.antt =====
-- packages/sdk-react-native/cpp/salve_push_crash_handler.cpp, lines 27 to 45: `isMounted` and
-- `writeCrashMarker`.
pub mod Text
pub mod Laws
use salve_push.Base.{
  ℕ, ℤ, Option, Bool, true, false, none, some, [], ◌∷◌, ◌++◌, not, ltb, leb, if◌then◌else◌, Bytes,
  codes, take,
}
use salve_push.Posix.Files.{open_read, open_truncate, write_file, close_file}
use salve_push.Posix.Format.{format_int, snprintf}
use salve_push.CrashHandler.State.{
  Action, undefined, ◌>>=◌, ◌>>◌, pure, gets, when, syscall, syscall_unit,
}

unfoldable pub is_mounted : Action Bool
is_mounted = do
  path ← gets (λ p. p.globals.mount_marker_path)
  fd ← syscall (open_read path)
  elim fd [ none ↦ pure false | some d ↦ do syscall_unit (close_file d); pure true ]

-- `char json[256]`
abbrev pub json_size : ℕ
json_size = 256

abbrev pub bool_text : Bool → Bytes
bool_text true = codes "true"
bool_text false = codes "false"

-- What the format string stands for: {"signal":%d,"isAutoRollback":%s}
unfoldable pub marker_text : ℤ → Bool → Bytes
marker_text n auto =
    codes "{\"signal\":"
    ++ (format_int n ++ (codes ",\"isAutoRollback\":" ++ (bool_text auto ++ codes "}")))

-- `write(fd, json, length)`, which reads `length` bytes of the buffer, its NUL included.
unfoldable pub write_buffer : ℕ → ℕ → Bytes → ℕ → Action (Unit {0})
write_buffer fd size buffer n p =
    if leb n size then syscall_unit (write_file fd (take n (buffer ++ (0 ∷ [])))) p else undefined

-- The part of `writeCrashMarker` behind the test of `fd`.
unfoldable pub write_json : ℕ → ℤ → Bool → Action (Unit {0})
write_json fd n auto =
    let (json, size) = snprintf json_size (marker_text n auto) in
    do when (ltb 0 size) (write_buffer fd json_size json size); syscall_unit (close_file fd)

-- The mode 0600.
abbrev pub owner_only : ℕ
owner_only = 0o600

-- `writeCrashMarker` behind its call of `open`.
unfoldable pub write_opened : ℤ → Bool → Option ℕ → Action (Unit {0})
write_opened n mounted none = pure tt
write_opened n mounted (some fd) = write_json fd n (not mounted)

-- `writeCrashMarker` behind its call of `isMounted`.
unfoldable pub mark_crash : ℤ → Bool → Action (Unit {0})
mark_crash n mounted = do
  path ← gets (λ p. p.globals.crash_marker_path)
  fd ← syscall (open_truncate path owner_only)
  write_opened n mounted fd

unfoldable pub write_crash_marker : ℤ → Action (Unit {0})
write_crash_marker n = do mounted ← is_mounted; mark_crash n mounted

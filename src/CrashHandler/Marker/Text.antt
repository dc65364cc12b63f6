-- ===== src/CrashHandler/Marker/Text.antt =====
-- The text of the crash marker: its length against `char json[256]`, and a reader for it.
use mathlib.Core.Option
use salve_push.Base.{
  ℕ, suc, ◌-◌, ◌^◌, ◌≤◌, ◌<◌, ℤ, pos, negsuc, ◌≡◌, refl, ap, ◌∙◌, Bool, true, false, Option, none,
  some, [], ◌∷◌, ◌++◌, ◌==◌, arith, if◌then◌else◌, Bytes, codes, bytes_eq, length, length-append,
  bytes_discrete,
}
use salve_push.Posix.Format.{decimal, format_int, scan}
use salve_push.Posix.Format.Laws.{length-decimal, scan-decimal, decimal-cons}
use salve_push.CrashHandler.Marker.{bool_text, marker_text}

-- The values of a 32-bit `int`.
abbrev pub IsInt32 : ℤ → Type 0
IsInt32 (pos n) = n < 2 ^ 31
IsInt32 (negsuc n) = n < 2 ^ 31

length-format_int : (n : ℤ) → IsInt32 n → length (format_int n) ≤ 11
unfolding format_int
length-format_int (pos n) h = omega (arith, length-decimal n (omega arith))
length-format_int (negsuc n) h = omega (arith, length-decimal (suc n) (omega arith))

-- The text of a marker for a 32-bit signal number is at most 45 bytes long.
pub length-marker_text : (n : ℤ) (auto : Bool) → IsInt32 n → length (marker_text n auto) ≤ 45
unfolding marker_text
length-marker_text n true h = omega (arith, length-format_int n h, length-append {0})
length-marker_text n false h = omega (arith, length-format_int n h, length-append {0})

-- `text` behind `prefix`.
strip : Bytes → Bytes → Option Bytes
strip [] text = some text
strip (c ∷ prefix) [] = none
strip (c ∷ prefix) (d ∷ text) = let rest = strip prefix text in if c == d then rest else none

strip-append : (prefix rest : Bytes) → strip prefix (prefix ++ rest) ≡ some rest
unfolding strip
strip-append [] rest = refl
strip-append (c ∷ prefix) rest = ground (arith, strip-append prefix rest)

-- The number that `-` and digits stand for, and what follows them.
read_int : Bytes → ℤ × Bytes
unfolding scan
read_int [] = (pos 0, [])
read_int (c ∷ text) =
    if c == b'-'
    then (let (n, rest) = scan 0 text in (negsuc (n - 1), rest))
    else (let (n, rest) = scan 0 (c ∷ text) in (pos n, rest))

read_int-nonneg :
    (n d : ℕ) (ds rest : Bytes)
    → decimal n ≡ d ∷ ds
    → b'0' ≤ d
    → read_int (decimal n ++ (b',' ∷ rest)) ≡ (pos n, b',' ∷ rest)
unfolding read_int
read_int-nonneg n d ds rest e low = rw e (ground (arith, rw e at (scan-decimal n b',' rest refl)))

read_int-format_int :
    (n : ℤ) (rest : Bytes) → read_int (format_int n ++ (b',' ∷ rest)) ≡ (n, b',' ∷ rest)
unfolding read_int format_int
read_int-format_int (pos n) rest =
    let (d, ds, e, low) = decimal-cons n in read_int-nonneg n d ds rest e low
read_int-format_int (negsuc n) rest =
    ap (λ ((m, more) : ℕ × Bytes). (negsuc (m - 1), more)) (scan-decimal (suc n) b',' rest refl)
    ∙ ground arith

read_bool : Bytes → Option Bool
unfolding bytes_discrete
read_bool text =
    if bytes_eq text (codes "true}")
    then some true
    else if bytes_eq text (codes "false}")
    then some false
    else none

-- The flag, behind the signal number.
read_flag : ℤ × Bytes → Option (ℤ × Bool)
unfolding strip read_bool
read_flag (n, text) = elim (strip (codes ",\"isAutoRollback\":") text) [
  | none ↦ none
  | some last ↦ Option.map (λ auto. (n, auto)) (read_bool last)
]

-- A reader for the one shape of JSON object that a marker has. It knows nothing of how the text
-- was printed.
unfoldable pub read_marker : Bytes → Option (ℤ × Bool)
unfolding strip read_int read_flag
read_marker text = elim (strip (codes "{\"signal\":") text) [
  | none ↦ none
  | some behind ↦ read_flag (read_int behind)
]

-- The rest of a marker behind its signal number.
abbrev tail_text : Bool → Bytes
tail_text auto = codes ",\"isAutoRollback\":" ++ (bool_text auto ++ codes "}")

read_flag-tail_text : (n : ℤ) (auto : Bool) → read_flag (n, tail_text auto) ≡ some (n, auto)
unfolding read_flag
read_flag-tail_text n true = refl
read_flag-tail_text n false = refl

-- Every marker is read back as the signal and the flag that it was printed from.
pub read_marker-marker_text :
    (n : ℤ) (auto : Bool) → read_marker (marker_text n auto) ≡ some (n, auto)
unfolding read_marker marker_text
read_marker-marker_text n auto = ap read_flag (read_int-format_int n _) ∙ read_flag-tail_text n auto

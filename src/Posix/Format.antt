-- ===== src/Posix/Format.antt =====
-- `snprintf` with `%d` and `%s`, and a reader for what it prints.
pub mod Laws
use salve_push.Base.{
  ℕ, zero, suc, ◌+◌, ◌-◌, ◌*◌, ◌/◌, ◌%◌, ℤ, pos, negsuc, Bool, List, [], ◌∷◌, ◌++◌, Bytes, length,
  take, ltb, leb, ◌&&◌, if◌then◌else◌,
}

-- The decimal digits of `n`, which `n + 1` rounds are enough for.
unfoldable pub decimal_rounds : ℕ → ℕ → Bytes
decimal_rounds zero n = []
decimal_rounds (suc f) n =
    let front = decimal_rounds f (n / 10) in
    (if ltb n 10 then [] else front) ++ ((b'0' + n % 10) ∷ [])

unfoldable pub decimal : ℕ → Bytes
unfolding decimal_rounds
decimal n = decimal_rounds (suc n) n

-- `%d`
unfoldable pub format_int : ℤ → Bytes
format_int (pos n) = decimal n
format_int (negsuc n) = b'-' ∷ decimal (suc n)

-- `snprintf(buffer, size, ...)` whose full text is `text`: what the buffer holds before its NUL,
-- and the result, which is the length of the full text.
abbrev pub snprintf : ℕ → Bytes → Bytes × ℕ
snprintf size text = (take (size - 1) text, length text)

abbrev pub is_digit : ℕ → Bool
is_digit c = leb b'0' c && leb c b'9'

-- Reads digits behind the number `acc`, and stops at the first other byte.
unfoldable pub scan : ℕ → Bytes → ℕ × Bytes
scan acc [] = (acc, [])
scan acc (c ∷ rest) =
    let more = scan (10 * acc + (c - b'0')) rest in if is_digit c then more else (acc, c ∷ rest)

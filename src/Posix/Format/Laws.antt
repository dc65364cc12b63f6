-- ===== src/Posix/Format/Laws.antt =====
-- `%d` prints what a reader of digits gives back, in at most eleven bytes for a 32-bit value.
use mathlib.Core.List.{append_assoc, append-nil}
use native.Mathlib.Nat.{pow-suc}
use salve_push.Base.{
  ℕ, zero, suc, ◌+◌, ◌*◌, ◌/◌, ◌%◌, ◌^◌, ◌≤◌, ◌<◌, ◌≡◌, false, sym, ap, ◌∙◌, inl, inr, Bool-cases,
  [], ◌∷◌, ◌++◌, arith, ltb, Bytes, length, length-append,
}
use salve_push.Posix.Format.{decimal_rounds, decimal, scan, is_digit}

-- A digit continues the number.
scan-digit :
    (acc d : ℕ) (rest : Bytes) → d < 10 → scan acc ((b'0' + d) ∷ rest) ≡ scan (10 * acc + d) rest
unfolding scan
scan-digit acc d rest h = ground arith

scan-decimal_rounds :
    (f n : ℕ) (rest : Bytes) → n < f → scan 0 (decimal_rounds f n ++ rest) ≡ scan n rest
unfolding decimal_rounds
scan-decimal_rounds zero n rest h = absurd (omega arith)
scan-decimal_rounds (suc f) n rest h = elim (Bool-cases (ltb n 10)) [
  | inl small ↦
      rw small
        (scan-digit 0 (n % 10) rest (omega arith) ∙ ap (λ (m : ℕ). scan m rest) (ground arith))
  | inr large ↦
      rw (large, append_assoc)
        (scan-decimal_rounds f (n / 10) ((b'0' + n % 10) ∷ rest) (ground arith)
          ∙ scan-digit (n / 10) (n % 10) rest (omega arith)
          ∙ ap (λ (m : ℕ). scan m rest) (omega arith))
]

length-decimal_rounds : (k f n : ℕ) → n < 10 ^ suc k → length (decimal_rounds f n) ≤ suc k
unfolding decimal_rounds
length-decimal_rounds k zero n h = omega arith
length-decimal_rounds zero (suc f) n h = ground arith
length-decimal_rounds (suc k) (suc f) n h = ground (
  arith,
  pow-suc 10 (suc k),
  length-decimal_rounds k f (n / 10),
  length-append (decimal_rounds f (n / 10)) ((b'0' + n % 10) ∷ []),
)

-- The digits of `n`, before a byte that is none, are read back as `n`.
pub scan-decimal :
    (n c : ℕ) (rest : Bytes) → is_digit c ≡ false → scan 0 (decimal n ++ (c ∷ rest)) ≡ (n, c ∷ rest)
unfolding decimal scan
scan-decimal n c rest h = scan-decimal_rounds (suc n) n (c ∷ rest) (omega arith) ∙ ground arith

-- The digits at the end of a text.
pub scan-decimal_end : (n : ℕ) → scan 0 (decimal n) ≡ (n, [])
unfolding decimal scan
scan-decimal_end n =
    ap (scan 0) (sym (append-nil (decimal_rounds (suc n) n)))
    ∙ scan-decimal_rounds (suc n) n [] (omega arith)

decimal_rounds-cons :
    (f n : ℕ)
    → n < suc f
    → (d : ℕ) × (ds : Bytes) × (decimal_rounds (suc f) n ≡ d ∷ ds) × (b'0' ≤ d)
unfolding decimal_rounds
decimal_rounds-cons zero n h = (b'0' + n % 10, [], ground arith, omega arith)
decimal_rounds-cons (suc f) n h = elim (Bool-cases (ltb n 10)) [
  | inl small ↦ (b'0' + n % 10, [], rw small, omega arith)
  | inr large ↦
      let (d, ds, e, low) = decimal_rounds-cons f (n / 10) (ground arith) in
      (
        d,
        ds ++ ((b'0' + n % 10) ∷ []),
        rw large (ap (λ front. front ++ ((b'0' + n % 10) ∷ [])) e),
        low,
      )
]

-- A decimal print begins with a digit, so never with `-`.
pub decimal-cons : (n : ℕ) → (d : ℕ) × (ds : Bytes) × (decimal n ≡ d ∷ ds) × (b'0' ≤ d)
unfolding decimal
decimal-cons n = decimal_rounds-cons n n (omega arith)

-- Below ten billion there are at most ten digits.
pub length-decimal : (n : ℕ) → n < 10 ^ 10 → length (decimal n) ≤ 10
unfolding decimal
length-decimal n h = length-decimal_rounds 9 (suc n) n h

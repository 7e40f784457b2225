-- ===== src/Text/Decimal.antt =====
-- Decimal output as by `fmt::format("{}", n)` and `std::to_string`, and `std::from_chars` on it.
use trn.Base.{
  ℕ, zero, suc, ◌+◌, ◌-◌, ◌*◌, ◌/◌, ◌%◌, ◌^◌, ◌<◌, true, false, ◌≡◌, refl, ◌∙◌, ap, [], ◌∷◌, ◌++◌,
  append_assoc, Bytes, ltb, if◌then◌else◌, Bool-cases, inl, inr, arith,
}
use trn.Base.Int.{ℤ, pos, negsuc}
use trn.Text.{is_digit, front_is, skip_while, skip_digits, scan_digits, parse_long}

decimal_loop : ℕ → ℕ → Bytes
decimal_loop zero n = []
decimal_loop (suc f) n =
    let more = decimal_loop f (n / 10) ++ ((b'0' + n % 10) ∷ []) in
    if ltb n 10 then (b'0' + n) ∷ [] else more

-- A number below the fuel has all its digits written.
unfoldable pub decimal : ℕ → Bytes
unfolding decimal_loop
decimal n = decimal_loop (suc n) n

unfoldable pub format_long : ℤ → Bytes
unfolding decimal
format_long (pos n) = decimal n
format_long (negsuc n) = b'-' ∷ decimal (suc n)

scan_digits-digit :
    (acc d : ℕ) (rest : Bytes)
    → d < 10
    → scan_digits acc ((b'0' + d) ∷ rest) ≡ scan_digits (acc * 10 + d) rest
unfolding scan_digits
scan_digits-digit acc d rest h =
    let e : b'0' + d - b'0' ≡ d = omega arith in
    let t : is_digit (b'0' + d) ≡ true = ground arith in rw (t, e)

skip_digits-digit :
    (d : ℕ) (rest : Bytes) → d < 10 → skip_digits ((b'0' + d) ∷ rest) ≡ skip_digits rest
unfolding skip_while
skip_digits-digit d rest h = ground arith

scan_digits-decimal_loop :
    (f n : ℕ) (rest : Bytes) → n < f → scan_digits 0 (decimal_loop f n ++ rest) ≡ scan_digits n rest
unfolding decimal_loop
scan_digits-decimal_loop zero n rest h = elim h [ ]
scan_digits-decimal_loop (suc f) n rest h = elim (Bool-cases (ltb n 10)) [
  | inl small ↦
      rw small (
        scan_digits-digit 0 n rest (ground arith)
        ∙ ap (λ (m : ℕ). scan_digits m rest) (omega arith))
  | inr big ↦
      rw (big, append_assoc)
        (scan_digits-decimal_loop f (n / 10) _ (ground arith)
          ∙ scan_digits-digit (n / 10) (n % 10) rest (omega arith)
          ∙ ap (λ (m : ℕ). scan_digits m rest) (omega arith))
]

skip_digits-decimal_loop :
    (f n : ℕ) (rest : Bytes) → n < f → skip_digits (decimal_loop f n ++ rest) ≡ skip_digits rest
unfolding decimal_loop
skip_digits-decimal_loop zero n rest h = elim h [ ]
skip_digits-decimal_loop (suc f) n rest h = elim (Bool-cases (ltb n 10)) [
  | inl small ↦ rw small (skip_digits-digit n rest (ground arith))
  | inr big ↦
      rw (big, append_assoc)
        (skip_digits-decimal_loop f (n / 10) _ (ground arith)
          ∙ skip_digits-digit (n % 10) rest (omega arith))
]

-- The digits of a number begin with a digit.
decimal_loop-front :
    (f n : ℕ) (rest : Bytes) → n < f → front_is is_digit (decimal_loop f n ++ rest) ≡ true
unfolding decimal_loop
decimal_loop-front zero n rest h = elim h [ ]
decimal_loop-front (suc f) n rest h = elim (Bool-cases (ltb n 10)) [
  | inl small ↦ rw small (ground arith)
  | inr big ↦ rw (big, append_assoc) (decimal_loop-front f (n / 10) _ (ground arith))
]

pub scan_digits-decimal :
    (n : ℕ) (rest : Bytes) → scan_digits 0 (decimal n ++ rest) ≡ scan_digits n rest
unfolding decimal
scan_digits-decimal n rest = scan_digits-decimal_loop (suc n) n rest (omega arith)

pub skip_digits-decimal :
    (n : ℕ) (rest : Bytes) → skip_digits (decimal n ++ rest) ≡ skip_digits rest
unfolding decimal
skip_digits-decimal n rest = skip_digits-decimal_loop (suc n) n rest (omega arith)

pub decimal-front : (n : ℕ) (rest : Bytes) → front_is is_digit (decimal n ++ rest) ≡ true
unfolding decimal
decimal-front n rest = decimal_loop-front (suc n) n rest (omega arith)

pub scan_digits_stop :
    (n : ℕ) (rest : Bytes) → front_is is_digit rest ≡ false → scan_digits n rest ≡ n
unfolding scan_digits
scan_digits_stop n [] h = refl
scan_digits_stop n (c ∷ s) h = rw h

pub skip_digits_stop : (rest : Bytes) → front_is is_digit rest ≡ false → skip_digits rest ≡ rest
unfolding skip_while
skip_digits_stop [] h = refl
skip_digits_stop (c ∷ s) h = rw h

parse_long_digits :
    (s : Bytes) {v : ℕ}
    → front_is is_digit s ≡ true
    → scan_digits 0 s ≡ v
    → v < 2 ^ 63
    → parse_long s ≡ pos v
unfolding parse_long
parse_long_digits [] h e b = cc
parse_long_digits (c ∷ s) h e b = rw e (ground arith)

-- A number that fits is read back, whatever follows it other than a digit.
pub parse_long-decimal :
    (n : ℕ) (rest : Bytes)
    → n < 2 ^ 63
    → front_is is_digit rest ≡ false
    → parse_long (decimal n ++ rest) ≡ pos n
parse_long-decimal n rest b stop =
    parse_long_digits (decimal n ++ rest) (decimal-front n rest)
      (scan_digits-decimal n rest ∙ scan_digits_stop n rest stop) b

pub format_long-pos : (n : ℕ) → format_long (pos n) ≡ decimal n
unfolding format_long
format_long-pos n = refl

pub decimal_one : decimal 1 ≡ b'1' ∷ []
unfolding decimal
decimal_one = refl

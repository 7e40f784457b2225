-- ===== src/Uudecode/Line/RoundTrip.antt =====
-- Encoding of a line, and `uudecode_line` of libtrn/uudecode.cpp.
use trn.Base.{
  ℕ, zero, suc, ◌+◌, ◌*◌, ◌/◌, ◌%◌, ◌≤◌, ◌<◌, bit_or, Bool, true, false, ◌&&◌, some, [], ◌∷◌, ◌++◌,
  Bytes, ◌==◌, if◌then◌else◌, get_elem?, drop, length, All, ◌≡◌, refl, sym, ap, append_assoc, ◌∙◌,
  Bool-cases, inl, inr, arith,
}
use trn.Text.Find.{drop-add}
use trn.Uudecode.Line.{
  dec, char_at, first_byte, second_byte, third_byte, groups_loop, uudecode_line,
}

-- The encoder's side, which trn does not have. Zero is a backquote, since spaces get lost.
abbrev pub enc : ℕ → ℕ
enc v = if v == 0 then b'`' else v + 32

unfoldable pub encode_group : ℕ → ℕ → ℕ → Bytes
encode_group a b c =
    enc (a / 4) ∷ enc (a % 4 * 16 + b / 16) ∷ enc (b % 16 * 4 + c / 64) ∷ enc (c % 64) ∷ []

unfoldable pub encode_groups : Bytes → Bytes
encode_groups [] = []
encode_groups (a ∷ []) = encode_group a 0 0
encode_groups (a ∷ b ∷ []) = encode_group a b 0
encode_groups (a ∷ b ∷ c ∷ s) = encode_group a b c ++ encode_groups s

unfoldable pub encode_line : Bytes → Bytes
encode_line s = enc (length s) ∷ encode_groups s

-- A test of all numbers below a bound.
abbrev below : ℕ → (ℕ → Bool) → Bool
below zero p = true
below (suc n) p = p n && below n p

below-lem : (n : ℕ) (p : ℕ → Bool) → below n p ≡ true → (i : ℕ) → i < n → p i ≡ true
below-lem zero p all i less = absurd (omega arith)
below-lem (suc n) p all i less = elim (Bool-cases (i == n)) [
  | inl here ↦ let same : i ≡ n = ground arith in rw same (ground arith)
  | inr there ↦ below-lem n p (ground arith) i (ground arith)
]

bit_or-shift :
    (n k : ℕ)
    → below n (λ x. below k (λ y. bit_or (x * k) y == x * k + y)) ≡ true
    → (x y : ℕ) → x < n
    → y < k
    → bit_or (x * k) y ≡ x * k + y
bit_or-shift n k all x y hx hy =
    let row = below-lem n _ all x hx in
    let cell : (bit_or (x * k) y == x * k + y) ≡ true =
      below-lem k (λ y. bit_or (x * k) y == x * k + y) row y hy in
    ground arith

dec-enc : (v : ℕ) → v < 64 → dec (enc v) ≡ v
dec-enc v small = elim (Bool-cases (v == 0)) [
  | inl e ↦ let same : v ≡ 0 = ground arith in rw same refl
  | inr e ↦ rw e (omega arith)
]

char_at-drop : (n k : ℕ) (line : Bytes) → char_at (drop n line) k ≡ char_at line (n + k)
unfolding char_at
char_at-drop zero k line = ap (char_at line) (omega arith)
char_at-drop (suc n) k [] = refl
char_at-drop (suc n) k (x ∷ xs) =
    let e : suc n + k ≡ suc (n + k) = omega arith in
    char_at-drop n k xs ∙ ap (char_at (x ∷ xs)) (sym e)

or4 : (x y : ℕ) → x < 64 → y < 4 → bit_or (x * 4) y ≡ x * 4 + y
or4 = bit_or-shift 64 4 refl

or16 : (x y : ℕ) → x < 64 → y < 16 → bit_or (x * 16) y ≡ x * 16 + y
or16 = bit_or-shift 64 16 refl

or64 : (x y : ℕ) → x < 64 → y < 64 → bit_or (x * 64) y ≡ x * 64 + y
or64 = bit_or-shift 64 64 refl

enc-is_printable : (v : ℕ) → 11 ≤ enc v
enc-is_printable v = elim (Bool-cases (v == 0)) [
  | inl e ↦ rw e (omega arith)
  | inr e ↦ rw e (omega arith)
]

char_at-enc : (s : Bytes) (k v : ℕ) → v < 64 → get_elem? s k ≡ some (enc v) → dec (char_at s k) ≡ v
unfolding char_at
char_at-enc s k v small found =
    let printable = enc-is_printable v in
    let e0 : (enc v == 0) ≡ false = ground arith in
    let e10 : (enc v == 10) ≡ false = ground arith in rw (found, char_at, e0, e10) (dec-enc v small)

-- The bytes of a group whose characters stand at an index of the line.
module _ (line rest : Bytes) (index a b c : ℕ) (here : drop index line ≡ encode_group a b c ++ rest)
    (ha : a < 256) (hb : b < 256) (hc : c < 256) where
  at :
      (k v : ℕ)
      → v < 64
      → get_elem? (encode_group a b c ++ rest) k ≡ some (enc v)
      → dec (char_at line (index + k)) ≡ v
  at k v small found =
      ap dec (sym (char_at-drop index k line))
      ∙ ap (λ s. dec (char_at s k)) here
      ∙ char_at-enc (encode_group a b c ++ rest) k v small found

  at0 : dec (char_at line index) ≡ a / 4
  unfolding encode_group
  at0 =
      let e : index ≡ index + 0 = omega arith in
      ap (λ j. dec (char_at line j)) e ∙ at 0 (a / 4) (omega arith) refl

  at1 : dec (char_at line (index + 1)) ≡ a % 4 * 16 + b / 16
  unfolding encode_group
  at1 = at 1 (a % 4 * 16 + b / 16) (omega arith) refl

  at2 : dec (char_at line (index + 2)) ≡ b % 16 * 4 + c / 64
  unfolding encode_group
  at2 = at 2 (b % 16 * 4 + c / 64) (omega arith) refl

  at3 : dec (char_at line (index + 3)) ≡ c % 64
  unfolding encode_group
  at3 = at 3 (c % 64) (omega arith) refl

  first_byte-group : first_byte line index ≡ a
  unfolding first_byte
  first_byte-group =
      rw (at0, at1)
        (rw (or4 (a / 4) ((a % 4 * 16 + b / 16) / 16) (omega arith) (omega arith)) (omega arith))

  second_byte-group : second_byte line index ≡ b
  unfolding second_byte
  second_byte-group =
      rw (at1, at2)
        (rw (or16 (a % 4 * 16 + b / 16) ((b % 16 * 4 + c / 64) / 4) (omega arith) (omega arith))
          (omega arith))

  third_byte-group : third_byte line index ≡ c
  unfolding third_byte
  third_byte-group =
      rw (at2, at3)
        (rw (or64 (b % 16 * 4 + c / 64) (c % 64) (omega arith) (omega arith)) (omega arith))

  drop-group : drop (index + 4) line ≡ rest
  unfolding encode_group
  drop-group = drop-add index 4 line ∙ ap (drop 4) here

groups_loop-encode_groups :
    (s line rest : Bytes) (index : ℕ)
    → All (λ b. b < 256) s
    → drop index line ≡ encode_groups s ++ rest
    → groups_loop (length s) line index ≡ s
unfolding groups_loop encode_groups
groups_loop-encode_groups [] line rest index bytes here = refl
groups_loop-encode_groups (a ∷ []) line rest index bytes here =
    ap (λ x. x ∷ [])
      (first_byte-group line rest index a 0 0 here bytes.0 (omega arith) (omega arith))
groups_loop-encode_groups (a ∷ b ∷ []) line rest index bytes here =
    rw
      (
        first_byte-group line rest index a b 0 here bytes.0 bytes.1.0 (omega arith),
        second_byte-group line rest index a b 0 here bytes.0 bytes.1.0 (omega arith),
      )
      refl
groups_loop-encode_groups (a ∷ b ∷ c ∷ s) line rest index bytes here =
    let ha = bytes.0 in
    let hb = bytes.1.0 in
    let hc = bytes.1.1.0 in
    let split = here ∙ append_assoc (encode_group a b c) (encode_groups s) rest in
    let more = encode_groups s ++ rest in
    rw
      (
        first_byte-group line more index a b c split ha hb hc,
        second_byte-group line more index a b c split ha hb hc,
        third_byte-group line more index a b c split ha hb hc,
        groups_loop-encode_groups s line rest (index + 4) bytes.1.1.1
            (drop-group line more index a b c split ha hb hc),
      )
      refl

-- A line of at most 63 bytes, each below 256, decodes to the bytes it was encoded from, whatever
-- stands behind them on the line.
pub uudecode_line-encode_line :
    (s rest : Bytes)
    → All (λ b. b < 256) s
    → length s ≤ 63
    → uudecode_line (encode_line s ++ rest) ≡ s
unfolding uudecode_line encode_line
uudecode_line-encode_line s rest bytes fits =
    rw (dec-enc (length s) (omega arith))
      (groups_loop-encode_groups s (encode_line s ++ rest) rest 1 bytes refl)

-- ===== src/Text/Case.antt =====
-- Comparison but for case: `string_case_compare` and `string_case_equal` on views, of
-- config/cmake/string_case_compare.strings.h.in and string_case_compare.manual.h.in, and
-- `string_case_compare` on C strings, of config/string_case_compare.cpp.
use trn.Base.{
  ℕ, zero, suc, ◌+◌, ◌≤◌, Bool, true, false, ◌&&◌, [], ◌∷◌, Bytes, All, leb, ◌==◌, if◌then◌else◌,
  map, ◌≡◌, ◌↔◌, refl, arith,
}
use trn.Base.Int.{ℤ, pos, negsuc, sub_ℕ}
use trn.Text.{remove_one}

-- `string_case_compare_detail::fold`
abbrev pub fold : ℕ → ℕ
fold ch = if leb b'A' ch && leb ch b'Z' then ch + 32 else ch

unfoldable pub string_case_compare : Bytes → Bytes → ℤ
string_case_compare [] [] = pos 0
string_case_compare [] (y ∷ s2) = negsuc 0
string_case_compare (x ∷ s1) [] = pos 1
string_case_compare (x ∷ s1) (y ∷ s2) =
    let later = string_case_compare s1 s2 in
    if fold x == fold y then later else sub_ℕ (fold x) (fold y)

abbrev pub is_zero : ℤ → Bool
is_zero (pos n) = n == 0
is_zero (negsuc n) = false

unfoldable pub string_case_equal : Bytes → Bytes → Bool
string_case_equal s1 s2 = is_zero (string_case_compare s1 s2)

-- The table `casemap`: its row of 'X' maps '[' too.
abbrev pub casemap : ℕ → ℕ
casemap c = if leb b'A' c && leb c b'[' then c + 32 else c

-- The byte that a pointer into a C string points at, the final NUL at the end.
abbrev pub pointed : Bytes → ℕ
pointed [] = 0
pointed (c ∷ s) = c

-- `string_case_compare` on C strings.
unfoldable pub c_string_case_compare : Bytes → Bytes → ℤ
c_string_case_compare s1 [] =
    if casemap (pointed s1) == casemap 0 then pos 0 else sub_ℕ (casemap (pointed s1)) (casemap 0)
c_string_case_compare s1 (c ∷ s2) =
    let later = c_string_case_compare (remove_one s1) s2 in
    if casemap (pointed s1) == casemap c
    then (if c == 0 then pos 0 else later)
    else sub_ℕ (casemap (pointed s1)) (casemap c)

-- The same with a limit on the number of bytes.
unfoldable pub c_string_case_compare_len : ℕ → Bytes → Bytes → ℤ
c_string_case_compare_len zero s1 s2 = pos 0
c_string_case_compare_len (suc len) s1 s2 =
    let later = c_string_case_compare_len len (remove_one s1) (remove_one s2) in
    if casemap (pointed s1) == casemap (pointed s2)
    then (if pointed s2 == 0 then pos 0 else later)
    else sub_ℕ (casemap (pointed s1)) (casemap (pointed s2))

sub_ℕ-zero : (a b : ℕ) → sub_ℕ a b ≡ pos 0 → (a == b) ≡ true
sub_ℕ-zero a b e = ground arith

-- Two views compare as equal exactly when they agree byte by byte once letters are made small.
pub string_case_compare_iff :
    (a b : Bytes) → (string_case_compare a b ≡ pos 0) ↔ (map fold a ≡ map fold b)
unfolding string_case_compare
string_case_compare_iff [] [] = (λ e. refl, λ e. refl)
string_case_compare_iff [] (y ∷ b) = ground arith
string_case_compare_iff (x ∷ a) [] = ground arith
string_case_compare_iff (x ∷ a) (y ∷ b) = ground (arith, string_case_compare_iff a b)

-- A byte of a C string that is not an opening bracket.
abbrev pub IsPlain : ℕ → Type 0
IsPlain c = (1 ≤ c) × ((c == b'[') ≡ false)

casemap-fold : (c : ℕ) → IsPlain c → casemap c ≡ fold c
casemap-fold c p = ground arith

-- On C strings without an opening bracket the table gives the same equality as the comparison of
-- views.
pub c_string_case_compare_iff :
    (a b : Bytes)
    → All IsPlain a
    → All IsPlain b
    → (c_string_case_compare a b ≡ pos 0) ↔ (string_case_compare a b ≡ pos 0)
unfolding string_case_compare c_string_case_compare
c_string_case_compare_iff [] [] p q = (λ e. refl, λ e. refl)
c_string_case_compare_iff (x ∷ a) [] (px, p) q = ground arith
c_string_case_compare_iff [] (y ∷ b) p (py, q) = ground arith
c_string_case_compare_iff (x ∷ a) (y ∷ b) (px, p) (py, q) =
    let nonzero : (y == 0) ≡ false = ground arith in
    rw (casemap-fold x px, casemap-fold y py, nonzero)
      (ground (arith, c_string_case_compare_iff a b p q))

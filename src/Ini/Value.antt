-- ===== src/Ini/Value.antt =====
-- Values that are written in quotes, for libtrn/IniSetting.cpp.
use trn.Base.{
  ℕ, zero, suc, ◌+◌, ◌<◌, Bool, true, false, ◌||◌, [], ◌∷◌, ◌++◌, Bytes, ◌==◌, if◌then◌else◌,
  length, take, drop, ◌≡◌, refl, ◌∙◌, ap, arith, append_assoc, append-nil, length-append,
  Bool-cases, inl, inr,
}
use trn.Ini.{newline, append_escape, value_loop, trim_right, value}
use trn.Text.{skip_while}

-- A double quote and a backslash are written with a backslash before them.
abbrev pub must_escape : ℕ → Bool
must_escape c = c == b'"' || c == b'\\'

unfoldable pub escape : Bytes → Bytes
escape [] = []
escape (c ∷ s) = if must_escape c then b'\\' ∷ c ∷ escape s else c ∷ escape s

abbrev pub quoted : Bytes → Bytes
quoted s = b'"' ∷ (escape s ++ (b'"' ∷ []))

append_escape-plain : (c : ℕ) (s : Bytes) → must_escape c ≡ true → append_escape (c ∷ s) ≡ (c, s)
unfolding append_escape
append_escape-plain c s h = ground arith

-- One byte of a quoted value.
module _ (f limit c : ℕ) (result s : Bytes) where
  value_loop-plain :
      must_escape c ≡ false
      → value_loop (suc f) b'"' result limit (c ∷ s)
        ≡ value_loop f b'"' (result ++ (c ∷ [])) limit s
  unfolding value_loop
  value_loop-plain h =
      let no_quote : (c == b'"') ≡ false = ground arith in
      let no_escape : (c == b'\\') ≡ false = ground arith in rw (no_quote, no_escape) refl

  value_loop-special :
      must_escape c ≡ true
      → value_loop (suc f) b'"' result limit (b'\\' ∷ c ∷ s)
        ≡ value_loop f b'"' (result ++ (c ∷ [])) limit s
  unfolding value_loop
  value_loop-special h =
      let no_newline : (c == newline) ≡ false = ground arith in
      rw (no_newline, append_escape-plain c s h) refl

value_loop-escape :
    (v : Bytes) (f limit : ℕ) (result : Bytes)
    → length (escape v) + 1 < f
    → value_loop f b'"' result limit (escape v ++ (b'"' ∷ [])) ≡ (result ++ v, length (result ++ v))
unfolding escape
value_loop-escape v zero limit result h = absurd (omega arith)
value_loop-escape [] (suc zero) limit result h = absurd (omega arith)
value_loop-escape [] (suc (suc f)) limit result h = rw append-nil (unfold value_loop in refl)
value_loop-escape (c ∷ v) (suc f) limit result h = elim (Bool-cases (must_escape c)) [
  | inl special ↦
      let rest = value_loop-escape v f limit (result ++ (c ∷ [])) (ground arith) in
      rw special (value_loop-special f limit c result _ special ∙ rw append_assoc at rest)
  | inr plain ↦
      let rest = value_loop-escape v f limit (result ++ (c ∷ [])) (ground arith) in
      rw plain (value_loop-plain f limit c result _ plain ∙ rw append_assoc at rest)
]

take-whole : (s : Bytes) → take (length s) s ≡ s
take-whole [] = refl
take-whole (c ∷ s) = ap (◌∷◌ c) (take-whole s)

drop-whole : (s : Bytes) → drop (length s) s ≡ []
drop-whole [] = refl
drop-whole (c ∷ s) = drop-whole s

opened : (f : ℕ) (s : Bytes) → value_loop (suc f) 0 [] 0 (b'"' ∷ s) ≡ value_loop f b'"' [] 0 s
unfolding value_loop
opened f s = refl

-- A value between double quotes, in which double quotes and backslashes have a backslash before
-- them, is read as it was.
pub value-quoted : (v : Bytes) → value (quoted v) ≡ v
unfolding value skip_while trim_right
value-quoted v =
    let loop =
      opened (suc (length (escape v ++ (b'"' ∷ [])))) (escape v ++ (b'"' ∷ []))
      ∙ value_loop-escape v (suc (length (escape v ++ (b'"' ∷ [])))) 0 []
          (omega (arith, length-append {0} (escape v) (b'"' ∷ []))) in
    rw loop (rw (take-whole v, drop-whole v) (append-nil v))

-- ===== src/Mime/Base64/RoundTrip.antt =====
-- Encoding in base64, and the decoder of texts of libtrn/mime.cpp.
use trn.Base.{
  ℕ, ◌+◌, ◌-◌, ◌*◌, ◌/◌, ◌%◌, ◌<◌, bit_and, bit_or, false, not, ◌&&◌, ◌||◌, [], ◌∷◌, Bytes, All,
  ltb, ◌==◌, if◌then◌else◌, ◌≡◌, refl, ap, ◌∙◌, arith,
}
use trn.Base.Bits.{agree, below, below_lem, and_15, or_shift6}
use trn.Mime.Base64.{
  index_b64, first_of, second_of, third_of, B64State, b64_loop, b64_decode_string,
}
use trn.Mime.Base64.Strip.{strip, IsNotNul, b64_loop-strip}
use trn.Mime.Quoted.{xx}

abbrev pub b64_char : ℕ → ℕ
b64_char v =
    if ltb v 26
    then v + b'A'
    else if ltb v 52
    then v - 26 + b'a'
    else if ltb v 62
    then v - 52 + b'0'
    else if v == 62
    then b'+'
    else b'/'

unfoldable pub b64_encode : Bytes → Bytes
b64_encode [] = []
b64_encode (a ∷ []) = b64_char (a / 4) ∷ b64_char (a % 4 * 16) ∷ b'=' ∷ b'=' ∷ []
b64_encode (a ∷ b ∷ []) =
    b64_char (a / 4) ∷ b64_char (a % 4 * 16 + b / 16) ∷ b64_char (b % 16 * 4) ∷ b'=' ∷ []
b64_encode (a ∷ b ∷ c ∷ s) =
    b64_char (a / 4)
    ∷ b64_char (a % 4 * 16 + b / 16)
    ∷ b64_char (b % 16 * 4 + c / 64)
    ∷ b64_char (c % 64)
    ∷ b64_encode s

-- A digit.
pub record IsDigit (c v : ℕ) : Type 0 where
  pub not_end : (c == 0 || c == b'=') ≡ false
  pub value : index_b64 c ≡ v
  pub known : (index_b64 c == xx) ≡ false

pub b64_char-IsDigit : (v : ℕ) → v < 64 → IsDigit (b64_char v) v
b64_char-IsDigit v h =
    let checked =
      below_lem 64
        (λ v. not (b64_char v == 0 || b64_char v == b'=') && (index_b64 (b64_char v) == v)) refl v
        h in
    record { not_end = ground arith; value = ground arith; known = ground arith }

or_shift2 : (x y : ℕ) → x < 64 → y < 4 → bit_or (x * 4) y ≡ x * 4 + y
or_shift2 x y h k =
    let checked =
      below_lem 4 (λ y. bit_or (x * 4) y == x * 4 + y)
        (below_lem 64 (λ x. below 4 (λ y. bit_or (x * 4) y == x * 4 + y)) refl x h) y k in
    ground arith

or_shift4 : (x y : ℕ) → x < 16 → y < 16 → bit_or (x * 16) y ≡ x * 16 + y
or_shift4 x y h k =
    let checked =
      below_lem 16 (λ y. bit_or (x * 16) y == x * 16 + y)
        (below_lem 16 (λ x. below 16 (λ y. bit_or (x * 16) y == x * 16 + y)) refl x h) y k in
    ground arith

and_3 : (x : ℕ) → x < 64 → bit_and x 3 ≡ x % 4
and_3 = agree 64 (λ x. bit_and x 3) (λ x. x % 4) refl

pub first_of_lem : (a r : ℕ) → a < 256 → r < 16 → first_of (a / 4) (a % 4 * 16 + r) ≡ a
first_of_lem a r h k =
    let top : (a % 4 * 16 + r) / 16 ≡ a % 4 = omega arith in
    rw (top, or_shift2 (a / 4) (a % 4) (omega arith) (omega arith)) (omega arith)

pub second_of_lem :
    (q b r : ℕ) → q < 4 → b < 256 → r < 4 → second_of (q * 16 + b / 16) (b % 16 * 4 + r) ≡ b
second_of_lem q b r g h k =
    let low : bit_and (q * 16 + b / 16) 15 ≡ b / 16 =
      and_15 (q * 16 + b / 16) (omega arith) ∙ omega arith in
    let top : (b % 16 * 4 + r) / 4 ≡ b % 16 = omega arith in
    rw (low, top, or_shift4 (b / 16) (b % 16) (omega arith) (omega arith)) (omega arith)

pub third_of_lem : (p c : ℕ) → p < 16 → c < 256 → third_of (p * 4 + c / 64) (c % 64) ≡ c
third_of_lem p c h k =
    let low : bit_and (p * 4 + c / 64) 3 ≡ c / 64 =
      and_3 (p * 4 + c / 64) (omega arith) ∙ omega arith in
    rw (low, or_shift6 (c / 64) (c % 64) (omega arith)) (omega arith)

-- One digit, in either state.
loop_none :
    (v : ℕ) (f : Bytes)
    → v < 64
    → b64_loop B64State.b64_none (b64_char v ∷ f) ≡ b64_loop (B64State.b64_one v) f
unfolding b64_loop
loop_none v f h = let d = b64_char-IsDigit v h in rw (d.not_end, d.known, d.value) refl

loop_one :
    (a v : ℕ) (f : Bytes)
    → v < 64
    → b64_loop (B64State.b64_one a) (b64_char v ∷ f)
      ≡ first_of a v ∷ b64_loop (B64State.b64_two v) f
unfolding b64_loop
loop_one a v f h = let d = b64_char-IsDigit v h in rw (d.not_end, d.known, d.value) refl

loop_two :
    (a v : ℕ) (f : Bytes)
    → v < 64
    → b64_loop (B64State.b64_two a) (b64_char v ∷ f)
      ≡ second_of a v ∷ b64_loop (B64State.b64_three v) f
unfolding b64_loop
loop_two a v f h = let d = b64_char-IsDigit v h in rw (d.not_end, d.known, d.value) refl

loop_three :
    (a v : ℕ) (f : Bytes)
    → v < 64
    → b64_loop (B64State.b64_three a) (b64_char v ∷ f) ≡ third_of a v ∷ b64_loop B64State.b64_none f
unfolding b64_loop
loop_three a v f h = let d = b64_char-IsDigit v h in rw (d.not_end, d.known, d.value) refl

-- Two, three and four digits from the start of a group.
loop_pair :
    (a r : ℕ) (f : Bytes)
    → a < 256
    → r < 16
    → b64_loop B64State.b64_none (b64_char (a / 4) ∷ b64_char (a % 4 * 16 + r) ∷ f)
      ≡ a ∷ b64_loop (B64State.b64_two (a % 4 * 16 + r)) f
loop_pair a r f ha hr =
    let v = a % 4 * 16 + r in
    loop_none (a / 4) (b64_char v ∷ f) (omega arith)
    ∙ loop_one (a / 4) v f (omega arith)
    ∙ ap (λ x. x ∷ b64_loop (B64State.b64_two v) f) (first_of_lem a r ha hr)

loop_triple :
    (a b r : ℕ) (f : Bytes)
    → a < 256
    → b < 256
    → r < 4
    → b64_loop B64State.b64_none
        (b64_char (a / 4) ∷ b64_char (a % 4 * 16 + b / 16) ∷ b64_char (b % 16 * 4 + r) ∷ f)
      ≡ a ∷ b ∷ b64_loop (B64State.b64_three (b % 16 * 4 + r)) f
loop_triple a b r f ha hb hr =
    let v = b % 16 * 4 + r in
    loop_pair a (b / 16) (b64_char v ∷ f) ha (omega arith)
    ∙ ap (λ t. a ∷ t)
        (loop_two (a % 4 * 16 + b / 16) v f (omega arith)
          ∙ ap (λ x. x ∷ b64_loop (B64State.b64_three v) f)
              (second_of_lem (a % 4) b r (omega arith) hb hr))

loop_group :
    (a b c : ℕ) (f : Bytes)
    → a < 256
    → b < 256
    → c < 256
    → b64_loop B64State.b64_none (
        b64_char (a / 4)
        ∷ b64_char (a % 4 * 16 + b / 16)
        ∷ b64_char (b % 16 * 4 + c / 64)
        ∷ b64_char (c % 64)
        ∷ f)
      ≡ a ∷ b ∷ c ∷ b64_loop B64State.b64_none f
loop_group a b c f ha hb hc =
    loop_triple a b (c / 64) (b64_char (c % 64) ∷ f) ha hb (omega arith)
    ∙ ap (λ t. a ∷ b ∷ t)
        (loop_three (b % 16 * 4 + c / 64) (c % 64) f (omega arith)
          ∙ ap (λ x. x ∷ b64_loop B64State.b64_none f) (third_of_lem (b % 16) c (omega arith) hc))

loop_stop : (state : B64State) (f : Bytes) → b64_loop state (b'=' ∷ f) ≡ []
unfolding b64_loop
loop_stop B64State.b64_none f = refl
loop_stop (B64State.b64_one a) f = refl
loop_stop (B64State.b64_two a) f = refl
loop_stop (B64State.b64_three a) f = refl

loop_nil : b64_loop B64State.b64_none [] ≡ []
unfolding b64_loop
loop_nil = refl

b64_loop-b64_encode :
    (s : Bytes) → All (λ b. b < 256) s → b64_loop B64State.b64_none (b64_encode s) ≡ s
unfolding b64_encode
b64_loop-b64_encode [] small = loop_nil
b64_loop-b64_encode (a ∷ []) (ha, small) =
    let e : a % 4 * 16 ≡ a % 4 * 16 + 0 = omega arith in
    ap (λ v. b64_loop B64State.b64_none (b64_char (a / 4) ∷ b64_char v ∷ b'=' ∷ b'=' ∷ [])) e
    ∙ loop_pair a 0 (b'=' ∷ b'=' ∷ []) ha (omega arith)
    ∙ ap (λ t. a ∷ t) (loop_stop (B64State.b64_two (a % 4 * 16 + 0)) (b'=' ∷ []))
b64_loop-b64_encode (a ∷ b ∷ []) (ha, (hb, small)) =
    let e : b % 16 * 4 ≡ b % 16 * 4 + 0 = omega arith in
    ap
      (λ v.
        b64_loop B64State.b64_none
          (b64_char (a / 4) ∷ b64_char (a % 4 * 16 + b / 16) ∷ b64_char v ∷ b'=' ∷ []))
      e
    ∙ loop_triple a b 0 (b'=' ∷ []) ha hb (omega arith)
    ∙ ap (λ t. a ∷ b ∷ t) (loop_stop (B64State.b64_three (b % 16 * 4 + 0)) [])
b64_loop-b64_encode (a ∷ b ∷ c ∷ s) (ha, (hb, (hc, small))) =
    loop_group a b c (b64_encode s) ha hb hc ∙ ap (λ t. a ∷ b ∷ c ∷ t) (b64_loop-b64_encode s small)

-- Bytes encoded in base64 come back from the decoder of texts, whatever bytes that are no digits
-- stand in between, NULs excepted.
pub b64_decode_string-b64_encode :
    (s f : Bytes)
    → All (λ b. b < 256) s
    → All IsNotNul f
    → strip f ≡ b64_encode s
    → b64_decode_string f ≡ s
b64_decode_string-b64_encode s f small clean same =
    b64_loop-strip f clean B64State.b64_none
    ∙ ap (b64_loop B64State.b64_none) same
    ∙ b64_loop-b64_encode s small

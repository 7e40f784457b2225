-- ===== src/Mime/Base64/Files.antt =====
-- The decoder of files, `b64_decode` of libtrn/mime.cpp, on what is encoded.
use trn.Base.{
  ℕ, ◌+◌, ◌*◌, ◌/◌, ◌%◌, ◌<◌, true, false, some, [], ◌∷◌, Bytes, All, ◌==◌, ◌≡◌, ◌≢◌, refl, ap, ◌∙◌,
  arith,
}
use trn.Mime.Base64.{
  index_b64, first_of, second_of, third_of, Group, is_skipped, b64_bytes, b64_decode,
}
use trn.Mime.Base64.RoundTrip.{
  b64_char, b64_encode, b64_char-IsDigit, first_of_lem, second_of_lem, third_of_lem,
}
use trn.Mime.Base64.Strip.{strip, b64_bytes-strip}
use trn.Uudecode.Machine.{DecodeState}

-- A digit that the decoder of files keeps.
abbrev IsKeptDigit : ℕ → ℕ → Type 0
IsKeptDigit c v = (is_skipped c ≡ false) × ((c == b'=') ≡ false) × (index_b64 c ≡ v)

b64_char-IsKeptDigit : (v : ℕ) → v < 64 → IsKeptDigit (b64_char v) v
b64_char-IsKeptDigit v h =
    let d = b64_char-IsDigit v h in
    let known = d.known in let not_end = d.not_end in (ground arith, ground arith, d.value)

-- A whole group, whatever its bytes.
group_four :
    (state : DecodeState) (a b c d : ℕ) (f : Bytes)
    → is_skipped a ≡ false
    → is_skipped b ≡ false
    → is_skipped c ≡ false
    → b64_bytes state Group.group_0 (a ∷ b ∷ c ∷ d ∷ f)
      ≡ b64_bytes state (Group.group_3 a b c) (d ∷ f)
unfolding b64_bytes
group_four state a b c d f ka kb kc = rw (ka, kb, kc) refl

module _ (state : DecodeState) (a b c : ℕ) where
  group_whole :
      (d : ℕ) (f : Bytes) {va vb vc vd : ℕ}
      → IsKeptDigit a va
      → IsKeptDigit b vb
      → IsKeptDigit c vc
      → IsKeptDigit d vd
      → b64_bytes state Group.group_0 (a ∷ b ∷ c ∷ d ∷ f) ≡ (
        first_of va vb ∷ second_of vb vc ∷ third_of vc vd ∷ (b64_bytes state Group.group_0 f).0,
        (b64_bytes state Group.group_0 f).1,
      )
  unfolding b64_bytes
  group_whole d f (ka, na, ea) (kb, nb, eb) (kc, nc, ec) (kd, nd, ed) =
      group_four state a b c d f ka kb kc ∙ rw (kd, na, nb, nc, nd, ea, eb, ec, ed) refl

  group_padded :
      (f : Bytes) {va vb vc : ℕ}
      → IsKeptDigit a va
      → IsKeptDigit b vb
      → IsKeptDigit c vc
      → b64_bytes state Group.group_0 (a ∷ b ∷ c ∷ b'=' ∷ f)
        ≡ (first_of va vb ∷ second_of vb vc ∷ [], DecodeState.done)
  unfolding b64_bytes
  group_padded f (ka, na, ea) (kb, nb, eb) (kc, nc, ec) =
      group_four state a b c b'=' f ka kb kc ∙ rw (na, nb, nc, ea, eb, ec) refl

  group_padded2 :
      (f : Bytes) {va vb : ℕ}
      → IsKeptDigit a va
      → IsKeptDigit b vb
      → b64_bytes state Group.group_0 (a ∷ b ∷ b'=' ∷ b'=' ∷ f)
        ≡ (first_of va vb ∷ [], DecodeState.done)
  unfolding b64_bytes
  group_padded2 f (ka, na, ea) (kb, nb, eb) =
      group_four state a b b'=' b'=' f ka kb refl ∙ rw (na, nb, ea, eb) refl

-- Padding ends the data; without it the decoder is done where the file ends.
abbrev pub end_state : Bytes → DecodeState
end_state [] = DecodeState.maybe_done
end_state (a ∷ []) = DecodeState.done
end_state (a ∷ b ∷ []) = DecodeState.done
end_state (a ∷ b ∷ c ∷ s) = end_state s

file_end : (state : DecodeState) → b64_bytes state Group.group_0 [] ≡ ([], DecodeState.maybe_done)
unfolding b64_bytes
file_end state = refl

b64_decode_plain :
    (state : DecodeState) (s : Bytes)
    → All (λ b. b < 256) s
    → b64_bytes state Group.group_0 (b64_encode s) ≡ (s, end_state s)
unfolding b64_encode
b64_decode_plain state [] small = file_end state
b64_decode_plain state (a ∷ []) (ha, small) =
    let e : a % 4 * 16 ≡ a % 4 * 16 + 0 = omega arith in
    group_padded2 state (b64_char (a / 4)) (b64_char (a % 4 * 16)) b'=' []
      (b64_char-IsKeptDigit (a / 4) (omega arith)) (b64_char-IsKeptDigit (a % 4 * 16) (omega arith))
    ∙ ap (λ x. (x ∷ [], DecodeState.done))
        (ap (first_of (a / 4)) e ∙ first_of_lem a 0 ha (omega arith))
b64_decode_plain state (a ∷ b ∷ []) (ha, (hb, small)) =
    let v = a % 4 * 16 + b / 16 in
    let e : b % 16 * 4 ≡ b % 16 * 4 + 0 = omega arith in
    let one = first_of_lem a (b / 16) ha (omega arith) in
    let two : second_of v (b % 16 * 4) ≡ b =
      ap (second_of v) e ∙ second_of_lem (a % 4) b 0 (omega arith) hb (omega arith) in
    group_padded state (b64_char (a / 4)) (b64_char v) (b64_char (b % 16 * 4)) []
      (b64_char-IsKeptDigit (a / 4) (omega arith)) (b64_char-IsKeptDigit v (omega arith))
      (b64_char-IsKeptDigit (b % 16 * 4) (omega arith))
    ∙ ap (λ x. (x ∷ second_of v (b % 16 * 4) ∷ [], DecodeState.done)) one
    ∙ ap (λ x. (a ∷ x ∷ [], DecodeState.done)) two
b64_decode_plain state (a ∷ b ∷ c ∷ s) (ha, (hb, (hc, small))) =
    let v = a % 4 * 16 + b / 16 in
    let w = b % 16 * 4 + c / 64 in
    let rest = b64_bytes state Group.group_0 (b64_encode s) in
    let one = first_of_lem a (b / 16) ha (omega arith) in
    let two = second_of_lem (a % 4) b (c / 64) (omega arith) hb (omega arith) in
    let three = third_of_lem (b % 16) c (omega arith) hc in
    group_whole state (b64_char (a / 4)) (b64_char v) (b64_char w) (b64_char (c % 64))
      (b64_encode s) (b64_char-IsKeptDigit (a / 4) (omega arith))
      (b64_char-IsKeptDigit v (omega arith)) (b64_char-IsKeptDigit w (omega arith))
      (b64_char-IsKeptDigit (c % 64) (omega arith))
    ∙ ap (λ x. (x ∷ second_of v w ∷ third_of w (c % 64) ∷ rest.0, rest.1)) one
    ∙ ap (λ x. (a ∷ x ∷ third_of w (c % 64) ∷ rest.0, rest.1)) two
    ∙ ap (λ x. (a ∷ b ∷ x ∷ rest.0, rest.1)) three
    ∙ ap (λ (r : Bytes × DecodeState). (a ∷ b ∷ c ∷ r.0, r.1)) (b64_decode_plain state s small)

-- The loop writes what was encoded.
b64_bytes-b64_encode :
    (state : DecodeState) (s f : Bytes)
    → All (λ b. b < 256) s
    → strip f ≡ b64_encode s
    → b64_bytes state Group.group_0 f ≡ (s, end_state s)
b64_bytes-b64_encode state s f small same =
    b64_bytes-strip state f Group.group_0
    ∙ ap (b64_bytes state Group.group_0) same
    ∙ b64_decode_plain state s small

-- Bytes encoded in base64 are what the decoder of files writes, whatever bytes that are no digits
-- stand in between, where it is not done already and a file that it opens does open. It reports that
-- it is done where the encoding is padded, and else that it may be.
pub b64_decode-b64_encode :
    (state : DecodeState) (s f : Bytes)
    → state ≢ DecodeState.done
    → All (λ b. b < 256) s
    → strip f ≡ b64_encode s
    → b64_decode true state f ≡ some (s, end_state s)
unfolding b64_decode
b64_decode-b64_encode DecodeState.done s f busy small same = absurd (busy refl)
b64_decode-b64_encode DecodeState.start s f busy small same =
    ap some (b64_bytes-b64_encode DecodeState.active s f small same)
b64_decode-b64_encode DecodeState.maybe_done s f busy small same =
    ap some (b64_bytes-b64_encode DecodeState.maybe_done s f small same)
b64_decode-b64_encode DecodeState.inactive s f busy small same =
    ap some (b64_bytes-b64_encode DecodeState.inactive s f small same)
b64_decode-b64_encode DecodeState.set_len s f busy small same =
    ap some (b64_bytes-b64_encode DecodeState.set_len s f small same)
b64_decode-b64_encode DecodeState.active s f busy small same =
    ap some (b64_bytes-b64_encode DecodeState.active s f small same)
b64_decode-b64_encode DecodeState.next_to_last s f busy small same =
    ap some (b64_bytes-b64_encode DecodeState.next_to_last s f small same)
b64_decode-b64_encode DecodeState.last s f busy small same =
    ap some (b64_bytes-b64_encode DecodeState.last s f small same)

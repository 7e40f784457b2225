-- ===== src/Tests/Mail.antt =====
-- Quoted printable, base64, URLs and subjects.
use trn.Base.{
  ℕ, true, false, ◌≡◌, ◌||◌, ◌==◌, Bool, refl, [], ◌∷◌, ◌++◌, Bytes, codes, All, some, none, arith,
  ◌<◌,
}
use trn.Mime.Base64.{b64_decode_string, b64_decode}
use trn.Mime.Base64.Files.{end_state, b64_decode-b64_encode}
use trn.Mime.Base64.RoundTrip.{b64_encode, b64_decode_string-b64_encode}
use trn.Mime.Base64.Strip.{strip, IsNotNul}
use trn.Mime.Quoted.{qp_decode_string, QpState, qp_decode}
use trn.Mime.Quoted.RoundTrip.{qp_encode, IsQuoting, IsKept, qp_decode_string-qp_encode}
use trn.Mime.Quoted.Streams.{qp_decode_lem, eof_byte, last_state}
use trn.Reply.{
  at_grey_space, skip_grey, strip_colon, strip_letters, strip_one_re, strip_loop, subject_has_re,
}
use trn.Reply.Prefix.{IsStripped, IsRe, subject_has_re-IsStripped}
use trn.Text.{skip_while}
use trn.Utf.Charset.{CharsetType}
use trn.Utf.Graphic.{GraphicState, code_point_at, utf8_code_point_at}
use trn.Utf.Graphic.Show.{at_norm_char}
use trn.Url.{ends_host, default_port, parse_url}
use trn.Url.RoundTrip.{IsWithout, url_text, parse_url-url_text, parse_url-literal}
use trn.Uudecode.Machine.{DecodeState}

abbrev quotes : ℕ → Bool
quotes c = c == 0 || (c == b'=' || c == b'_')

quotes-IsQuoting : IsQuoting quotes
quotes-IsQuoting c e = e

-- "a=b", and a byte above 127.
abbrev bytes : Bytes
bytes = 97 ∷ 61 ∷ 98 ∷ 233 ∷ []

bytes-IsKept : All IsKept bytes
bytes-IsKept = (
  (ground arith, refl),
  ((ground arith, refl), ((ground arith, refl), ((ground arith, refl), tt))),
)

bytes-small : All (λ b. b < 256) bytes
bytes-small = (ground arith, (ground arith, (ground arith, (ground arith, tt))))

qp_decode_string-qp_encode_example : qp_decode_string true (qp_encode quotes bytes) ≡ bytes
qp_decode_string-qp_encode_example =
    qp_decode_string-qp_encode quotes true bytes quotes-IsQuoting bytes-IsKept

-- A file that ends in an equals sign.
qp_decode_lem_example :
    qp_decode QpState.qp_text (97 ∷ 61 ∷ [])
    ≡ qp_decode_string false (97 ∷ 61 ∷ []) ++ eof_byte (last_state QpState.qp_text (97 ∷ 61 ∷ []))
qp_decode_lem_example = qp_decode_lem (97 ∷ 61 ∷ []) (refl, (refl, tt))

trailing_equals : qp_decode QpState.qp_text (97 ∷ 61 ∷ []) ≡ 97 ∷ 61 ∷ 255 ∷ []
unfolding qp_decode
trailing_equals = refl

-- "hi" with a line end inside.
abbrev greeting : Bytes
greeting = codes "aG" ++ (10 ∷ codes "k=")

greeting_plain : strip greeting ≡ b64_encode (codes "hi")
unfolding b64_encode
greeting_plain = refl

greeting_text : All IsNotNul greeting
greeting_text = (refl, (refl, (refl, (refl, (refl, tt)))))

hi-small : All (λ b. b < 256) (codes "hi")
hi-small = (ground arith, (ground arith, tt))

b64_decode_string-b64_encode_example : b64_decode_string greeting ≡ codes "hi"
b64_decode_string-b64_encode_example =
    b64_decode_string-b64_encode (codes "hi") greeting hi-small greeting_text greeting_plain

b64_decode-b64_encode_example :
    b64_decode true DecodeState.start greeting ≡ some (codes "hi", end_state (codes "hi"))
b64_decode-b64_encode_example =
    b64_decode-b64_encode DecodeState.start (codes "hi") greeting (λ e. cc) hi-small greeting_plain

-- "http://a.b:81/x", and an address literal.
no_colon : IsWithout (λ c. c == b':') (codes "http")
no_colon = (refl, (refl, (refl, (refl, tt))))

host_named : IsWithout ends_host (codes "a.b")
host_named = (refl, (refl, (refl, tt)))

parse_url-url_text_example :
    parse_url (url_text (codes "http") (codes "a.b") 81 (codes "x"))
    ≡ some (record { url_type = codes "http"; host = codes "a.b"; path = codes "/x"; port = 81 })
parse_url-url_text_example =
    parse_url-url_text (codes "http") (codes "a.b") (codes "x") 81 no_colon host_named refl
      (ground arith)

literal : IsWithout (λ c. c == b']') (codes "::1")
literal = (refl, (refl, (refl, tt)))

parse_url-literal_example :
    parse_url (codes "http://[::1]/x")
    ≡ some (record {
      url_type = codes "http";
      host = codes "[::1";
      path = codes "/x";
      port = default_port;
    })
parse_url-literal_example =
    parse_url-literal (codes "http") (codes "::1") (codes "x") no_colon literal

-- "Re: Re^2: x"
abbrev reply : Bytes
reply = codes "Re: Re^2: x"

abbrev utf8_terminal : GraphicState
utf8_terminal = record {
  in_set = CharsetType.utf8;
  out_set = CharsetType.utf8;
  himap_in = none;
  himap_out = none;
}

reply-stripped : subject_has_re utf8_terminal reply ≡ (true, codes "x")
unfolding subject_has_re strip_loop strip_one_re strip_letters strip_colon skip_grey at_grey_space
    at_norm_char code_point_at utf8_code_point_at skip_while
reply-stripped = refl

subject_has_re-IsStripped_example :
    IsStripped utf8_terminal
      (subject_has_re utf8_terminal reply).0
      reply
      (subject_has_re utf8_terminal reply).1
    × (at_grey_space utf8_terminal (subject_has_re utf8_terminal reply).1 ≡ false)
    × ((rest : Bytes) → ¬ IsRe (subject_has_re utf8_terminal reply).1 rest)
subject_has_re-IsStripped_example = subject_has_re-IsStripped utf8_terminal reply

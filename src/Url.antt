-- ===== src/Url.antt =====
-- The reading of URLs: `parse_url` of libtrn/url.cpp. `none` stands for the empty `UrlParts`, whose
-- path is empty, and the port is 80 where there is none or one that does not fit an int.
pub mod RoundTrip
use trn.Base.{
  ℕ, zero, suc, ◌+◌, ◌^◌, Bool, true, false, not, ◌||◌, ◌&&◌, Option, none, some, ◌>>=◌, [], ◌∷◌,
  Bytes, codes, ltb, ◌==◌, if◌then◌else◌, length, drop, take, equal,
}
use trn.Text.{find, find_if, front_is, is_digit, scan_digits, skip_digits, starts_with}

pub record UrlParts : Type 0 where
  pub url_type : Bytes
  pub host : Bytes
  pub path : Bytes
  pub port : ℕ

-- The host in the text behind "//", and the rest. An address literal keeps its opening bracket.
unfoldable pub read_literal : Bytes → Option (Bytes × Bytes)
read_literal rest = elim (find b']' rest) [
  | none ↦ none
  | some host_end ↦ some (take host_end rest, drop (suc host_end) rest)
]

abbrev pub ends_host : ℕ → Bool
ends_host c = c == b'/' || c == b':'

unfoldable pub read_name : Bytes → Option (Bytes × Bytes)
read_name rest = elim (find_if ends_host rest) [
  | none ↦ some (rest, [])
  | some host_end ↦ some (take host_end rest, drop host_end rest)
]

unfoldable pub read_host : Bytes → Option (Bytes × Bytes)
read_host rest = if front_is (λ c. c == b'[') rest then read_literal rest else read_name rest

abbrev pub default_port : ℕ
default_port = 80

-- `std::from_chars` into the port, an int of 32 bits.
abbrev pub fit_port : ℕ → ℕ
fit_port n = if ltb n (2 ^ 31) then n else default_port

-- The port, where a colon announces it, and the rest.
unfoldable pub read_port : Bytes → Option (ℕ × Bytes)
read_port [] = none
read_port (c ∷ rest) =
    let numbered : Option (ℕ × Bytes) =
      if front_is is_digit rest
      then some (fit_port (scan_digits 0 rest), skip_digits rest)
      else none in
    if c == b':' then numbered else some (default_port, c ∷ rest)

unfoldable pub read_path : Bytes → Bytes → ℕ → Bytes → Option UrlParts
read_path url_type host port rest =
    if front_is (λ c. c == b'/') rest
    then some (record { url_type = url_type; host = host; path = rest; port = port })
    else none

-- What follows the scheme's colon.
unfoldable pub after_scheme : Bytes → Bytes → Option UrlParts
after_scheme url_type rest =
    if starts_with rest (codes "//")
    then (read_host (drop 2 rest) >>= λ hosted.
        read_port hosted.1 >>= λ ported. read_path url_type hosted.0 ported.0 ported.1)
    else if equal url_type (codes "news")
    then read_path url_type [] default_port rest
    else none

unfoldable pub parse_url : Bytes → Option UrlParts
parse_url url = elim (find b':' url) [
  | none ↦ none
  | some scheme_end ↦ after_scheme (take scheme_end url) (drop (suc scheme_end) url)
]

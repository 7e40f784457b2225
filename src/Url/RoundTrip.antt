-- ===== src/Url/RoundTrip.antt =====
-- URLs that are written from their parts, for libtrn/url.cpp.
use trn.Base.{
  ℕ, suc, ◌^◌, ◌<◌, Bool, true, false, some, [], ◌∷◌, ◌++◌, Bytes, All, codes, ltb, ◌==◌, length,
  drop, take, ◌≡◌, refl, ap, ◌∙◌, arith,
}
use trn.Text.{find_if, front_is, is_digit}
use trn.Text.Decimal.{
  decimal, scan_digits-decimal, scan_digits_stop, skip_digits-decimal, skip_digits_stop,
  decimal-front,
}
use trn.Url.{
  read_literal, ends_host, read_name, read_host, default_port, read_port, read_path, after_scheme,
  parse_url,
}

-- No byte of a text has a property.
abbrev pub IsWithout : (ℕ → Bool) → Bytes → Type 0
IsWithout p = All (λ c. p c ≡ false)

find_if-append :
    (p : ℕ → Bool) (a : Bytes) (c : ℕ) (rest : Bytes)
    → IsWithout p a
    → p c ≡ true
    → find_if p (a ++ (c ∷ rest)) ≡ some (length a)
unfolding find_if
find_if-append p [] c rest h e = rw e refl
find_if-append p (x ∷ a) c rest (here, h) e = rw (here, find_if-append p a c rest h e) refl

take-append : (a rest : Bytes) → take (length a) (a ++ rest) ≡ a
take-append [] rest = refl
take-append (x ∷ a) rest = ap (λ t. x ∷ t) (take-append a rest)

drop-append : (a rest : Bytes) → drop (length a) (a ++ rest) ≡ rest
drop-append [] rest = refl
drop-append (x ∷ a) rest = drop-append a rest

drop-suc-append :
    (a : Bytes) (c : ℕ) (rest : Bytes) → drop (suc (length a)) (a ++ (c ∷ rest)) ≡ rest
drop-suc-append [] c rest = refl
drop-suc-append (x ∷ a) c rest = drop-suc-append a c rest

parse_url-scheme :
    (url_type rest : Bytes)
    → IsWithout (λ c. c == b':') url_type
    → parse_url (url_type ++ (b':' ∷ rest)) ≡ after_scheme url_type rest
unfolding parse_url
parse_url-scheme url_type rest h =
    rw (find_if-append (λ c. c == b':') url_type b':' rest h refl, parse_url)
      (rw (take-append url_type (b':' ∷ rest), drop-suc-append url_type b':' rest) refl)

-- A host's name ends before a slash or a colon.
read_name-append :
    (host : Bytes) (c : ℕ) (rest : Bytes)
    → IsWithout ends_host host
    → ends_host c ≡ true
    → read_name (host ++ (c ∷ rest)) ≡ some (host, c ∷ rest)
unfolding read_name
read_name-append host c rest h e =
    rw (find_if-append ends_host host c rest h e, read_name)
      (rw (take-append host (c ∷ rest), drop-append host (c ∷ rest)) refl)

read_port-decimal :
    (port : ℕ) (path : Bytes)
    → port < 2 ^ 31
    → front_is is_digit path ≡ false
    → read_port (b':' ∷ (decimal port ++ path)) ≡ some (port, path)
unfolding read_port
read_port-decimal port path fits stop =
    let value = scan_digits-decimal port path ∙ scan_digits_stop port path stop in
    let rest = skip_digits-decimal port path ∙ skip_digits_stop path stop in
    let small : ltb port (2 ^ 31) ≡ true = ground arith in
    rw (decimal-front port path, value, rest, small) refl

front_is-append :
    (host rest : Bytes)
    → front_is (λ c. c == b'[') host ≡ false
    → front_is (λ c. c == b'[') rest ≡ false
    → front_is (λ c. c == b'[') (host ++ rest) ≡ false
front_is-append [] rest h e = e
front_is-append (c ∷ host) rest h e = h

read_host-name :
    (host : Bytes) (c : ℕ) (rest : Bytes)
    → IsWithout ends_host host
    → front_is (λ c. c == b'[') host ≡ false
    → (c == b'[') ≡ false
    → ends_host c ≡ true
    → read_host (host ++ (c ∷ rest)) ≡ some (host, c ∷ rest)
unfolding read_host
read_host-name host c rest name bracket other e =
    rw (front_is-append host (c ∷ rest) bracket other, read_host)
      (read_name-append host c rest name e)

read_literal-append :
    (addr rest : Bytes)
    → IsWithout (λ c. c == b']') addr
    → read_literal (addr ++ (b']' ∷ rest)) ≡ some (addr, rest)
unfolding read_literal
read_literal-append addr rest h =
    rw (find_if-append (λ c. c == b']') addr b']' rest h refl, read_literal)
      (rw (take-append addr (b']' ∷ rest), drop-suc-append addr b']' rest) refl)

read_host-literal :
    (addr rest : Bytes)
    → IsWithout (λ c. c == b']') addr
    → read_host (b'[' ∷ (addr ++ (b']' ∷ rest))) ≡ some (b'[' ∷ addr, rest)
unfolding read_host
read_host-literal addr rest h = read_literal-append (b'[' ∷ addr) rest (refl, h)

-- A URL with a scheme, a host's name, a port that fits an int and a path.
abbrev pub url_text : Bytes → Bytes → ℕ → Bytes → Bytes
url_text url_type host port path =
    url_type ++ (codes "://" ++ (host ++ (b':' ∷ (decimal port ++ (b'/' ∷ path)))))

-- A URL that is put together from a scheme without a colon, a host's name without a slash or a colon
-- that does not begin with a bracket, a port below 2 ^ 31 in decimal, and a path that begins with a
-- slash is read back as these parts.
pub parse_url-url_text :
    (url_type host path : Bytes) (port : ℕ)
    → IsWithout (λ c. c == b':') url_type
    → IsWithout ends_host host
    → front_is (λ c. c == b'[') host ≡ false
    → port < 2 ^ 31
    → parse_url (url_text url_type host port path)
      ≡ some (record { url_type = url_type; host = host; path = b'/' ∷ path; port = port })
unfolding after_scheme read_path
parse_url-url_text url_type host path port colon name bracket fits =
    let rest = decimal port ++ (b'/' ∷ path) in
    let found = read_host-name host b':' rest name bracket refl refl in
    let number = read_port-decimal port (b'/' ∷ path) fits refl in
    parse_url-scheme url_type (b'/' ∷ b'/' ∷ (host ++ (b':' ∷ rest))) colon
    ∙ rw (found, number) refl

read_port-none : (path : Bytes) → read_port (b'/' ∷ path) ≡ some (default_port, b'/' ∷ path)
unfolding read_port
read_port-none path = refl

-- Of an address literal in brackets, before a path and without a port, the closing bracket is taken
-- off and the opening one stays in the host.
pub parse_url-literal :
    (url_type addr path : Bytes)
    → IsWithout (λ c. c == b':') url_type
    → IsWithout (λ c. c == b']') addr
    → parse_url (url_type ++ (codes "://[" ++ (addr ++ (b']' ∷ b'/' ∷ path))))
      ≡ some (record {
        url_type = url_type;
        host = b'[' ∷ addr;
        path = b'/' ∷ path;
        port = default_port;
      })
unfolding after_scheme read_path
parse_url-literal url_type addr path colon name =
    let found = read_host-literal addr (b'/' ∷ path) name in
    parse_url-scheme url_type (b'/' ∷ b'/' ∷ b'[' ∷ (addr ++ (b']' ∷ b'/' ∷ path))) colon
    ∙ rw (found, read_port-none path) refl

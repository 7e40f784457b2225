-- ===== src/Moderators.antt =====
-- libtrn/moderators.cpp: the address of a newsgroup's moderator, from the rules of a file.
pub mod Address
use trn.Base.{
  ℕ, zero, suc, ◌+◌, ◌-◌, min, Bool, true, false, not, ◌&&◌, ◌||◌, Option, none, some, [], ◌∷◌,
  ◌++◌, Bytes, ltb, leb, ◌==◌, if◌then◌else◌, length, take, drop, reverse, map, codes,
}
use trn.Text.{skip_while, find, front_is, remove_one}
use trn.Wildmat.{wildcard_match}

abbrev pub any : (ℕ → Bool) → Bytes → Bool
any f [] = false
any f (c ∷ s) = f c || any f s

abbrev pub is_empty : Bytes → Bool
is_empty [] = true
is_empty (c ∷ s) = false

abbrev pub is_blank : ℕ → Bool
is_blank c = c == b' ' || (c == 9 || c == 13)

unfoldable pub trim : Bytes → Bytes
trim text = reverse (skip_while is_blank (reverse (skip_while is_blank text)))

-- The loop over `end` in `matches`: the index of the comma that ends the first pattern. A comma
-- between brackets does not, nor does one behind a backslash.
unfoldable pub pattern_end : Bool → Bytes → ℕ
pattern_end in_class [] = 0
pattern_end in_class (c ∷ []) = if c == b',' && not in_class then 0 else 1
pattern_end in_class (c ∷ d ∷ s) =
    let quoted = 2 + pattern_end in_class s in
    let opened = suc (pattern_end true (d ∷ s)) in
    let closed = suc (pattern_end false (d ∷ s)) in
    let plain = suc (pattern_end in_class (d ∷ s)) in
    if c == 92
    then quoted
    else if c == b'['
    then opened
    else if c == b']'
    then closed
    else if c == b',' && not in_class
    then 0
    else plain

-- What one pattern of the list makes of `matched`.
unfoldable pub match_pattern : Bytes → Bytes → Bool → Bool
match_pattern group trimmed matched =
    let negative = front_is (λ c. c == b'!') trimmed in
    let pattern = if negative then remove_one trimmed else trimmed in
    if not (is_empty pattern) && wildcard_match group pattern then not negative else matched

-- The loop of `matches` over the patterns. A round drops a byte at least.
unfoldable pub matches_loop : ℕ → Bytes → Bool → Bytes → Bool
matches_loop zero group matched patterns = matched
matches_loop (suc f) group matched patterns =
    let end = pattern_end false patterns in
    let more =
      matches_loop f group (match_pattern group (trim (take end patterns)) matched)
        (drop (min (suc end) (length patterns)) patterns) in
    if is_empty patterns then matched else more

unfoldable pub matches : Bytes → Bytes → Bool
matches group patterns = matches_loop (length patterns) group false patterns

abbrev pub dash : ℕ → ℕ
dash c = if c == b'.' then b'-' else c

-- The loop of `expand`: %% is a percent sign, and the first %s the group with dashes for dots.
unfoldable pub expand_loop : Bytes → Bool → Bytes → Bytes → Option Bytes
expand_loop group used result [] = some result
expand_loop group used result (c ∷ []) = if c == b'%' then none else some (result ++ (c ∷ []))
expand_loop group used result (c ∷ d ∷ s) =
    let plain = expand_loop group used (result ++ (c ∷ [])) (d ∷ s) in
    let percent = expand_loop group used (result ++ (b'%' ∷ [])) s in
    let named = expand_loop group true (result ++ map dash group) s in
    if not (c == b'%')
    then plain
    else if d == b'%'
    then percent
    else if d == b's' && not used
    then named
    else none

unfoldable pub rfind : ℕ → Bytes → Option ℕ
rfind c [] = none
rfind c (d ∷ s) = elim (rfind c s) [
  | some n ↦ some (suc n)
  | none ↦ if d == c then some 0 else none
]

abbrev pub bad_in_address : ℕ → Bool
bad_in_address c = leb c b' ' || (leb 127 c || (c == b'<' || (c == b'>' || c == b',')))

-- The checks at the end of `expand`.
unfoldable pub is_address : Bytes → Bool
is_address result = elim (rfind b'@' result) [
  | none ↦ false
  | some at ↦ not (at == 0) && (not (suc at == length result) && not (any bad_in_address result))
]

unfoldable pub expand : Bytes → Bytes → Bytes
expand address group = elim (expand_loop group false [] address) [
  | none ↦ []
  | some result ↦ if is_address result then result else []
]

abbrev pub in_group_name : ℕ → Bool
in_group_name c =
    leb b'a' c && leb c b'z'
    || (leb b'A' c && leb c b'Z'
        || (leb b'0' c && leb c b'9' || (c == b'.' || (c == b'-' || (c == b'_' || c == b'+')))))

-- The address that one line of the rules gives the group, empty if none.
unfoldable pub rule_address : Bytes → Bytes → Bytes
rule_address group line =
    let ruled : Bytes = elim (find b':' line) [
      | none ↦ []
      | some colon ↦
          if matches group (take colon line)
          then expand (trim (drop (suc colon) line)) group
          else []
    ] in
    if is_empty line || front_is (λ c. c == b'#') line then [] else ruled

-- The loop of `moderator_address` over the lines. A round drops a byte at least.
unfoldable pub rules_loop : ℕ → Bytes → Bytes → Bytes
rules_loop zero group rules = []
rules_loop (suc f) group rules =
    let (line, rest) : Bytes × Bytes = elim (find 10 rules) [
      | none ↦ (trim rules, [])
      | some end ↦ (trim (take end rules), drop (suc end) rules)
    ] in
    let more = rules_loop f group rest in
    let address = rule_address group line in
    if is_empty rules then [] else if is_empty address then more else address

unfoldable pub moderator_address : Bytes → Bytes → Bytes
moderator_address group rules =
    if is_empty group || any (λ c. not (in_group_name c)) group
    then []
    else rules_loop (length rules) group rules

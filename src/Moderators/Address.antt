-- ===== src/Moderators/Address.antt =====
-- What the address of a moderator looks like, for libtrn/moderators.cpp.
use trn.Base.{
  ℕ, zero, suc, ◌≤◌, ◌<◌, Bool, true, false, not, ◌||◌, some, [], ◌∷◌, ◌++◌, Bytes, ◌==◌,
  if◌then◌else◌, length, length-drop, length-take, take, drop, ◌≡◌, refl, ap, Bool-cases,
  Option-cases, inl, inr, arith,
}
use trn.Moderators.{
  any, is_empty, bad_in_address, in_group_name, rfind, is_address, expand, expand_loop,
  rule_address, rules_loop, matches, trim, moderator_address,
}
use trn.Text.{find, front_is}

pub record IsAddress (a : Bytes) : Type 0 where
  pub name : Bytes
  pub host : Bytes
  pub split : a ≡ name ++ (b'@' ∷ host)
  pub has_name : 1 ≤ length name
  pub has_host : 1 ≤ length host
  pub clean : any bad_in_address a ≡ false

rfind_lem :
    (c : ℕ) (s : Bytes) {n : ℕ}
    → rfind c s ≡ some n
    → (s ≡ take n s ++ (c ∷ drop (suc n) s)) × (n < length s)
unfolding rfind
rfind_lem c [] e = absurd (ground arith)
rfind_lem c (d ∷ s) {n} e = elim (Option-cases (rfind c s)) [
  | inl missing ↦
      let first : n ≡ 0 = ground arith in
      let here : d ≡ c = ground arith in rw (first, here) (refl, omega arith)
  | inr (m, found) ↦
      let later : n ≡ suc m = ground arith in
      let (split, bound) = rfind_lem c s found in rw later (ap (λ t. d ∷ t) split, omega arith)
]

is_address-IsAddress : (a : Bytes) → is_address a ≡ true → IsAddress a
unfolding is_address
is_address-IsAddress a e = elim (Option-cases (rfind b'@' a)) [
  | inl missing ↦ absurd (ground arith)
  | inr (n, found) ↦
      let (split, bound) = rfind_lem b'@' a found in
      record {
        name = take n a;
        host = drop (suc n) a;
        split = split;
        has_name = ground (arith, length-take n a);
        has_host = ground (arith, length-drop (suc n) a);
        clean = ground arith;
      }
]

-- An address, if there is one.
abbrev IsAnswer : Bytes → Type 0
IsAnswer a = is_empty a ≡ false → IsAddress a

IsAnswer-nil : IsAnswer []
IsAnswer-nil present = absurd (ground arith)

IsAnswer-if : (b : Bool) {x y : Bytes} → IsAnswer x → IsAnswer y → IsAnswer (if b then x else y)
IsAnswer-if true hx hy = hx
IsAnswer-if false hx hy = hy

checked-IsAnswer : (a : Bytes) → IsAnswer (if is_address a then a else [])
checked-IsAnswer a = elim (Bool-cases (is_address a)) [
  | inl good ↦ rw good (λ _. is_address-IsAddress a good)
  | inr bad ↦ rw bad IsAnswer-nil
]

expand-IsAnswer : (address group : Bytes) → IsAnswer (expand address group)
unfolding expand
expand-IsAnswer address group = elim (Option-cases (expand_loop group false [] address)) [
  | inl refused ↦ rw (refused, expand) IsAnswer-nil
  | inr (result, made) ↦ rw (made, expand) (checked-IsAnswer result)
]

rule_address-IsAnswer : (group line : Bytes) → IsAnswer (rule_address group line)
unfolding rule_address
rule_address-IsAnswer group line =
    IsAnswer-if (is_empty line || front_is (λ c. c == b'#') line) IsAnswer-nil
      (elim (Option-cases (find b':' line)) [
        | inl none_found ↦ rw none_found IsAnswer-nil
        | inr (colon, found) ↦ rw found (
            IsAnswer-if (matches group (take colon line))
              (expand-IsAnswer (trim (drop (suc colon) line)) group) IsAnswer-nil)
      ])

rules_loop-IsAnswer : (f : ℕ) (group rules : Bytes) → IsAnswer (rules_loop f group rules)
unfolding rules_loop
rules_loop-IsAnswer zero group rules = IsAnswer-nil
rules_loop-IsAnswer (suc f) group rules =
    let round : (line rest : Bytes)
        → IsAnswer (
            if is_empty rules
            then []
            else if is_empty (rule_address group line)
            then rules_loop f group rest
            else rule_address group line) =
      λ line rest. IsAnswer-if (is_empty rules) IsAnswer-nil (
        IsAnswer-if (is_empty (rule_address group line)) (rules_loop-IsAnswer f group rest)
          (rule_address-IsAnswer group line)) in
    elim (Option-cases (find 10 rules)) [
      | inl last ↦ rw last (round (trim rules) [])
      | inr (end, found) ↦ rw found (round (trim (take end rules)) (drop (suc end) rules))
    ]

-- The address of a moderator, if it is not empty, is a name and a host about an `@`, of printable
-- ASCII bytes without a space, `<`, `>` or a comma.
pub moderator_address-IsAddress :
    (group rules : Bytes)
    → is_empty (moderator_address group rules) ≡ false
    → IsAddress (moderator_address group rules)
unfolding moderator_address
moderator_address-IsAddress group rules =
    IsAnswer-if (is_empty group || any (λ c. not (in_group_name c)) group) IsAnswer-nil
      (rules_loop-IsAnswer (length rules) group rules)

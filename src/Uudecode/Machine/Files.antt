-- ===== src/Uudecode/Machine/Files.antt =====
-- The output file in the states of `UuDecoder::decode` (libtrn/uudecode.cpp).
use trn.Base.{
  Bool, true, false, not, ◌||◌, ◌≡◌, refl, sym, ◌∙◌, none, some, List, [], ◌∷◌, Bytes,
  if◌then◌else◌, Bool-cases, Option-cases, inl, inr, arith, ltb, length, drop, codes, ◌&&◌,
}
use mathlib.Core.Option.{some-injective, none-ne-some}
use mathlib.Core.Path.{subst}
use trn.Text.{starts_with, front_is, is_space}
use trn.Uudecode.Machine.{
  DecodeState, done, start, inactive, set_len, active, next_to_last, last, maybe_done, UuDecoder,
  put_line, with_state, is_end, is_blank_line, is_full, look_for_begin, open_file, begin_filename,
  decode_active, activate, decode_inactive, decode_next_to_last, decode_last, step, lines_loop,
  cut_cr,
}

abbrev pub is_busy : DecodeState → Bool
is_busy done = false
is_busy start = false
is_busy maybe_done = false
is_busy _ = true

true_ne_false : true ≡ false → ⊥
true_ne_false e = cc

or_right : (b : Bool) → b || true ≡ true
or_right true = refl
or_right false = refl

abbrev pub has_file : UuDecoder → Bool
has_file d = elim (d.ofp) [ none ↦ false | some bytes ↦ true ]

-- The states between a begin line and an end line have the output file open.
pub record IsReady (d : UuDecoder) : Type 0 where
  pub ready : not (is_busy d.state) || has_file d ≡ true

no_file : (d : UuDecoder) → d.ofp ≡ none → has_file d ≡ true → ⊥
no_file d e h = true_ne_false (sym h ∙ rw e refl)

IsReady-open : (d : UuDecoder) → has_file d ≡ true → IsReady d
IsReady-open d h = record { ready = rw h (or_right (not (is_busy d.state))) }

IsReady-if : (b : Bool) {x y : UuDecoder} → IsReady x → IsReady y → IsReady (if b then x else y)
IsReady-if true hx hy = hx
IsReady-if false hx hy = hy

IsReady-idle : (d : UuDecoder) → is_busy d.state ≡ false → IsReady d
IsReady-idle d h = record { ready = rw h refl }

put_line-has_file :
    (d : UuDecoder) (line : Bytes) → has_file d ≡ true → has_file (put_line d line) ≡ true
put_line-has_file d line h = elim (Option-cases d.ofp) [
  | inl closed ↦ absurd (no_file d closed h)
  | inr (bytes, e) ↦ rw e refl
]

decode_active-IsReady :
    (d : UuDecoder) (line : Bytes) → has_file d ≡ true → IsReady (decode_active d line)
unfolding decode_active
decode_active-IsReady d line h =
    IsReady-if (is_full d line) (IsReady-open (put_line d line) (put_line-has_file d line h)) (
      IsReady-if (ltb d.line_length (length line)) (IsReady-open (with_state inactive d) h) (
        IsReady-if (is_end line) (IsReady-idle _ refl)
          (IsReady-if (is_blank_line line) (IsReady-open _ h) (IsReady-open _ h))))

decode_inactive-IsReady :
    (d : UuDecoder) (line : Bytes) → has_file d ≡ true → IsReady (decode_inactive d line)
unfolding decode_inactive
decode_inactive-IsReady d line h =
    IsReady-if (is_full d line) (decode_active-IsReady (activate d line) line h) (
      IsReady-if (starts_with line (codes "BEGIN")) (IsReady-open (with_state active d) h)
        (IsReady-open d h))

decode_next_to_last-IsReady :
    (d : UuDecoder) (line : Bytes) → has_file d ≡ true → IsReady (decode_next_to_last d line)
unfolding decode_next_to_last
decode_next_to_last-IsReady d line h = IsReady-if (is_end line) (IsReady-idle _ refl) (
    IsReady-if (is_blank_line line) (IsReady-open (with_state last d) h)
      (IsReady-open (with_state inactive d) h))

decode_last-IsReady :
    (d : UuDecoder) (line : Bytes) → has_file d ≡ true → IsReady (decode_last d line)
unfolding decode_last
decode_last-IsReady d line h =
    IsReady-if (is_end line && front_is is_space (drop 3 line)) (IsReady-idle _ refl)
      (IsReady-open (with_state inactive d) h)

-- The decoder behind a begin line.
abbrev begun : (Bytes → Bool) → UuDecoder → Bytes → UuDecoder
begun opens d filename = record d {
  state = set_len;
  ofp = open_file opens filename;
  decode_filename = filename;
}

begun-has_file :
    (opens : Bytes → Bool) (d : UuDecoder) (filename file : Bytes)
    → open_file opens filename ≡ some file
    → has_file (begun opens d filename) ≡ true
begun-has_file opens d filename file e = rw e refl

look_for_begin-IsReady :
    (opens : Bytes → Bool) (d : UuDecoder) (line : Bytes) {later : UuDecoder}
    → IsReady d
    → look_for_begin opens d line ≡ some later
    → IsReady later
unfolding look_for_begin
look_for_begin-IsReady opens d line {later} h e =
    elim (Bool-cases (starts_with line (codes "begin "))) [
      | inr other ↦
          let same : some d ≡ some later = rw (other, look_for_begin) at e in
          subst IsReady (some-injective _ _ same) h
      | inl begins ↦
          let filename = begin_filename (drop 6 line) in
          elim (Bool-cases (not (ltb 0 (length filename)))) [
            | inl nameless ↦
                let same : none ≡ some later = rw (begins, nameless, look_for_begin) at e in
                absurd (none-ne-some _ same)
            | inr named ↦ elim (Option-cases (open_file opens filename)) [
              | inl failed ↦
                  let same : none ≡ some later = rw (begins, named, failed, look_for_begin) at e in
                  absurd (none-ne-some _ same)
              | inr (file, works) ↦
                  let same : some (begun opens d filename) ≡ some later =
                    rw (begins, named, works, look_for_begin) at e in
                  subst IsReady (some-injective _ _ same) (
                    IsReady-open (begun opens d filename)
                      (begun-has_file opens d filename file works))
            ]
          ]
    ]

opened : (b : Bool) {c : Bool} → not b || c ≡ true → b ≡ true → c ≡ true
opened true h e = h
opened false h e = absurd (true_ne_false (sym e))

step-IsReady_at :
    (opens : Bytes → Bool) (state : DecodeState) (d : UuDecoder) (line : Bytes) {later : UuDecoder}
    → IsReady d
    → (is_busy state ≡ true → has_file d ≡ true)
    → step opens state d line ≡ some later
    → IsReady later
unfolding step
step-IsReady_at opens done d line h file e = subst IsReady (some-injective _ _ e) h
step-IsReady_at opens start d line h file e = look_for_begin-IsReady opens d line h e
step-IsReady_at opens maybe_done d line h file e = look_for_begin-IsReady opens d line h e
step-IsReady_at opens inactive d line h file e =
    subst IsReady (some-injective _ _ e) (decode_inactive-IsReady d line (file refl))
step-IsReady_at opens set_len d line h file e =
    subst IsReady (some-injective _ _ e) (decode_active-IsReady (activate d line) line (file refl))
step-IsReady_at opens active d line h file e =
    subst IsReady (some-injective _ _ e) (decode_active-IsReady d line (file refl))
step-IsReady_at opens next_to_last d line h file e =
    subst IsReady (some-injective _ _ e) (decode_next_to_last-IsReady d line (file refl))
step-IsReady_at opens last d line h file e =
    subst IsReady (some-injective _ _ e) (decode_last-IsReady d line (file refl))

step-IsReady :
    (opens : Bytes → Bool) (d : UuDecoder) (line : Bytes) {later : UuDecoder}
    → IsReady d
    → step opens d.state d line ≡ some later
    → IsReady later
step-IsReady opens d line h e =
    step-IsReady_at opens d.state d line h (opened (is_busy d.state) h.ready) e

-- From a decoder that is ready, so also from a new one, the loop over the lines of a file, if it
-- does not fail, leaves a decoder that is ready: between a begin line and an end line the output
-- file is open, so the bytes of a line have a place to go.
pub lines_loop-IsReady :
    (opens : Bytes → Bool) (d : UuDecoder) (lines : List Bytes) {later : UuDecoder}
    → IsReady d
    → lines_loop opens d lines ≡ some later
    → IsReady later
unfolding lines_loop
lines_loop-IsReady opens d [] h e = subst IsReady (some-injective _ _ e) h
lines_loop-IsReady opens d ([] ∷ lines) h e = subst IsReady (some-injective _ _ e) h
lines_loop-IsReady opens d ((c ∷ s) ∷ lines) {later} h e =
    elim (Option-cases (step opens d.state d (cut_cr (c ∷ s)))) [
      | inl failed ↦ absurd (ground arith)
      | inr (next, stepped) ↦
          let rest : lines_loop opens next lines ≡ some later = rw (stepped, lines_loop) at e in
          lines_loop-IsReady opens next lines (step-IsReady opens d (cut_cr (c ∷ s)) h stepped) rest
    ]

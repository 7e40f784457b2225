-- ===== src/Uudecode/Machine.antt =====
-- `UuDecoder::decode`: the state machine over the lines of a file. `s_uu_decoder` and the local
-- `lastline` are the record; the lines are those that `get_a_line` returns.
pub mod Files
use trn.Base.{
  ℕ, Bool, not, ◌&&◌, ◌||◌, Option, none, some, List, [], ◌∷◌, ◌++◌, Bytes, ltb, ◌==◌,
  if◌then◌else◌, length, take, drop, codes,
}
use trn.Text.{find, find_if, find_if_from, front_is, is_space, starts_with}
use trn.Uudecode.Line.{uudecode_line}

-- `DECODE_ERROR` is the result of a step that fails, and no state of the loop.
pub data DecodeState : Type 0 where
  done : DecodeState
  start : DecodeState
  inactive : DecodeState
  set_len : DecodeState
  active : DecodeState
  next_to_last : DecodeState
  last : DecodeState
  maybe_done : DecodeState

-- `ofp` is what the open file holds so far; `closed` are the contents of the closed files.
pub record UuDecoder : Type 0 where
  pub state : DecodeState
  pub ofp : Option Bytes
  pub closed : List Bytes
  pub line_length : ℕ
  pub last_line : Bytes
  pub decode_filename : Bytes

-- A line up to its carriage return, which becomes a newline.
unfoldable pub cut_cr : Bytes → Bytes
cut_cr line = elim (find 13 line) [ none ↦ line | some cr ↦ take cr line ++ (10 ∷ []) ]

-- The rest of a begin line is a mode, white space and the file's name, which ends at white space
-- other than a space.
unfoldable pub begin_filename : Bytes → Bytes
begin_filename text =
    let name : ℕ → Bytes = λ from.
      elim (find_if (λ c. is_space c && not (c == b' ')) (drop from text)) [
        | none ↦ drop from text
        | some n ↦ take n (drop from text)
      ] in
    elim (find_if is_space text) [
      | none ↦ []
      | some mode_end ↦ elim (find_if_from (λ c. not (is_space c)) mode_end text) [
        | none ↦ []
        | some from ↦ name from
      ]
    ]

-- `uudecode_line` onto the open file. The source's `putc` has a file in every state that decodes.
abbrev pub put_line : UuDecoder → Bytes → UuDecoder
put_line d line = elim (d.ofp) [
  | none ↦ d
  | some bytes ↦ record d { ofp = some (bytes ++ uudecode_line line) }
]

abbrev pub close : UuDecoder → UuDecoder
close d = elim (d.ofp) [
  | none ↦ d
  | some bytes ↦ record d { ofp = none; closed = d.closed ++ (bytes ∷ []) }
]

abbrev pub with_state : DecodeState → UuDecoder → UuDecoder
with_state state d = record d { state = state }

abbrev pub is_end : Bytes → Bool
is_end line = starts_with line (codes "end")

abbrev pub is_blank_line : Bytes → Bool
is_blank_line line = front_is (λ c. c == b' ' || c == 96) line

abbrev pub is_full : UuDecoder → Bytes → Bool
is_full d line = front_is (λ c. c == b'M') line && length line == d.line_length

-- `fopen` of a file to write: an empty file, or null.
unfoldable pub open_file : (Bytes → Bool) → Bytes → Option Bytes
open_file opens filename = if opens filename then some [] else none

-- A line at `DECODE_START` or `DECODE_MAYBE_DONE`; `none` is `DECODE_ERROR`. Whether the output
-- file opens, whose name `decode_fix_filename` makes of the one in the line, is up to `opens`, and
-- `decode_filename` is the name in the line.
unfoldable pub look_for_begin : (Bytes → Bool) → UuDecoder → Bytes → Option UuDecoder
look_for_begin opens d line =
    let filename = begin_filename (drop 6 line) in
    let begun : UuDecoder = record d {
      ofp = open_file opens filename;
      decode_filename = filename;
    } in
    let started : Option UuDecoder = elim (open_file opens filename) [
      | none ↦ none
      | some file ↦ some (with_state set_len begun)
    ] in
    if not (starts_with line (codes "begin "))
    then some d
    else if not (ltb 0 (length filename))
    then none
    else started

-- A line at `DECODE_ACTIVE`.
unfoldable pub decode_active : UuDecoder → Bytes → UuDecoder
decode_active d line =
    let kept = record d { last_line = line } in
    if is_full d line
    then put_line d line
    else if ltb d.line_length (length line)
    then with_state inactive d
    else if is_end line
    then with_state maybe_done (close kept)
    else if is_blank_line line
    then with_state last kept
    else with_state next_to_last kept

abbrev pub activate : UuDecoder → Bytes → UuDecoder
activate d line = record d { state = active; line_length = length line }

unfoldable pub decode_inactive : UuDecoder → Bytes → UuDecoder
decode_inactive d line =
    if is_full d line
    then decode_active (activate d line) line
    else if starts_with line (codes "BEGIN")
    then with_state active d
    else d

unfoldable pub decode_next_to_last : UuDecoder → Bytes → UuDecoder
decode_next_to_last d line =
    if is_end line
    then with_state maybe_done (close d)
    else if is_blank_line line
    then with_state last d
    else with_state inactive d

unfoldable pub decode_last : UuDecoder → Bytes → UuDecoder
decode_last d line =
    if is_end line && front_is is_space (drop 3 line)
    then with_state maybe_done (close (record (put_line d d.last_line) { last_line = [] }))
    else with_state inactive d

unfoldable pub step : (Bytes → Bool) → DecodeState → UuDecoder → Bytes → Option UuDecoder
step opens done d line = some d
step opens start d line = look_for_begin opens d line
step opens maybe_done d line = look_for_begin opens d line
step opens inactive d line = some (decode_inactive d line)
step opens set_len d line = some (decode_active (activate d line) line)
step opens active d line = some (decode_active d line)
step opens next_to_last d line = some (decode_next_to_last d line)
step opens last d line = some (decode_last d line)

-- The loop over the lines; it stops at an empty one.
unfoldable pub lines_loop : (Bytes → Bool) → UuDecoder → List Bytes → Option UuDecoder
lines_loop opens d [] = some d
lines_loop opens d ([] ∷ lines) = some d
lines_loop opens d ((c ∷ s) ∷ lines) = elim (step opens d.state d (cut_cr (c ∷ s))) [
  | none ↦ none
  | some later ↦ lines_loop opens later lines
]

-- What `decode` returns, and the decoder it leaves.
abbrev pub settle : DecodeState → UuDecoder → DecodeState × UuDecoder
settle done d = (done, close d)
settle maybe_done d = (maybe_done, close d)
settle _ d = (inactive, d)

unfoldable pub decode : (Bytes → Bool) → UuDecoder → List Bytes → Option (DecodeState × UuDecoder)
decode opens d lines =
    let fresh : UuDecoder = record d { last_line = [] } in
    let ended : Option (DecodeState × UuDecoder) = elim (lines_loop opens fresh lines) [
      | none ↦ none
      | some later ↦ some (settle later.state later)
    ] in
    elim (d.state) [ done ↦ some (done, close d) | _ ↦ ended ]

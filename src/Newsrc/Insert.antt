-- ===== src/Newsrc/Insert.antt =====
-- The scan and the rewriting of the line in `add_art_num` of libtrn/rcln.cpp. Offsets are positions
-- in the whole line, as in the source.
use trn.Base.{
  ℕ, zero, suc, ◌-◌, Bool, not, ◌&&◌, Option, none, some, [], ◌∷◌, ◌++◌, Bytes, ltb, ◌==◌,
  if◌then◌else◌, take, drop,
}
use trn.Base.Int.{ℤ, pos, leb_ℤ, eqb_ℤ, article_after}
use trn.Newsrc.{set_byte}
use trn.Text.{is_digit, front_is, digits_end, next_digit, parse_long}
use trn.Text.Decimal.{format_long}

-- The local variables of the scan: `s_offset`, `t_offset`, `max_offset` (`none` is `npos`),
-- `lastnum` and `min`.
pub record Place : Type 0 where
  pub s_offset : ℕ
  pub t_offset : ℕ
  pub max_offset : Option ℕ
  pub lastnum : ℤ
  pub low : ℤ

pub data Scan : Type 0 where
  already_read : Scan
  insert_at : Place → Scan
  out_of_fuel : Scan

abbrev pub char_at : Bytes → ℕ → (ℕ → Bool) → Bool
char_at line off p = front_is p (drop off line)

unfoldable pub scan : ℕ → Bytes → ℤ → Place → Scan
scan zero line art_num p = out_of_fuel
scan (suc f) line art_num p =
    let low = parse_long (drop p.s_offset line) in
    let behind = digits_end line p.s_offset in
    let high = parse_long (drop (suc behind) line) in
    let next_range = next_digit line (digits_end line (suc behind)) in
    let next_single = next_digit line behind in
    let after_range = scan f line art_num (record {
      s_offset = next_range;
      t_offset = next_range;
      max_offset = some (suc behind);
      lastnum = high;
      low = low;
    }) in
    let after_single = scan f line art_num (record {
      s_offset = next_single;
      t_offset = next_single;
      max_offset = none;
      lastnum = low;
      low = low;
    }) in
    if not (char_at line p.s_offset is_digit)
    then insert_at p
    else if not (leb_ℤ low art_num)
    then insert_at (record p { low = low })
    else if char_at line behind (λ c. c == b'-')
    then if leb_ℤ art_num high then already_read else after_range
    else if eqb_ℤ art_num low
    then already_read
    else after_single

-- The place to write at, the line as changed so far, and the text to put there.
pub record Insertion : Type 0 where
  pub write_offset : ℕ
  pub new_line : Bytes
  pub text : Bytes

abbrev is_set : ℤ → Bool
is_set n = not (eqb_ℤ n (pos 0))

-- "Can we just extend last range?" and what follows it, up to "is there more to life?".
unfoldable pub insertion : Bytes → ℤ → Bool → Place → Insertion
insertion line art_num morenum p =
    let after_last = is_set p.lastnum && eqb_ℤ art_num (article_after p.lastnum) in
    let at_t : Insertion = record { write_offset = p.t_offset; new_line = line; text = [] } in
    let comma : Insertion = record {
      write_offset = p.t_offset;
      new_line = line;
      text = if morenum then [] else b',' ∷ [];
    } in
    let joined : Insertion =
      if morenum && (ltb 0 p.t_offset && char_at line (p.t_offset - 1) (λ c. c == b','))
      then record {
        write_offset = p.t_offset;
        new_line = set_byte line (p.t_offset - 1) b'-';
        text = [];
      }
      else if not morenum
      then record { write_offset = p.t_offset; new_line = line; text = b'-' ∷ [] }
      else comma in
    elim p.max_offset [
      | some m ↦
          if after_last
          then record { write_offset = m; new_line = line; text = [] }
          else if is_set p.lastnum
          then comma
          else at_t
      | none ↦ if not (is_set p.lastnum) then at_t else if after_last then joined else comma
    ]

-- The new line: the number is written, or the ranges on both sides of it are joined.
unfoldable pub insert_number : Bytes → ℤ → Place → Bytes
insert_number line art_num p =
    let morenum = char_at line p.s_offset is_digit in
    let i = insertion line art_num morenum p in
    let range_before =
      ltb 0 i.write_offset && char_at i.new_line (i.write_offset - 1) (λ c. c == b'-') in
    let nextmax = digits_end line p.s_offset in
    let range_after = char_at line nextmax (λ c. c == b'-') in
    let kept = take i.write_offset i.new_line ++ i.text in
    if not morenum
    then kept ++ (format_long art_num ++ drop p.s_offset line)
    else if eqb_ℤ p.low (article_after art_num)
    then kept
      ++ ((if range_before then [] else format_long art_num ++ (b'-' ∷ []))
          ++ drop (if range_after then suc nextmax else p.s_offset) line)
    else kept ++ (format_long art_num ++ (b',' ∷ drop p.s_offset line))

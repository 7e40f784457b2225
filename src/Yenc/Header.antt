-- ===== src/Yenc/Header.antt =====
-- `yenc_prescan`: the =ybegin line.
use trn.Base.{
  ℕ, Bool, true, false, not, ◌&&◌, Option, some, Bytes, ltb, ◌==◌, if◌then◌else◌, length, drop,
  codes, ◌>>=◌, ◌>>◌, guard,
}
use trn.Base.Int.{ℤ, pos, ltb_ℤ}
use trn.Text.{starts_with}
use trn.Yenc.{strip_line_end, Fields, field, is_some, parse_fields, number, number_int, u64_max}

pub record YencHeader : Type 0 where
  pub filename : Bytes
  pub size : ℕ
  pub line_length : ℕ
  pub part : ℤ
  pub total : ℤ
  pub multipart : Bool

-- The part field, where the line has one.
unfoldable pub read_part : Fields → YencHeader → Option YencHeader
read_part fields h =
    let parsed = (do
      part ← number_int fields (codes "part")
      guard (not (ltb_ℤ part (pos 1)) && not (h.size == 0))
      some (record h { multipart = true; part = part; total = pos 0 })) in
    if is_some (field fields (codes "part")) then parsed else some h

-- The total field, where the line has one.
unfoldable pub read_total : Fields → YencHeader → Option YencHeader
read_total fields h =
    let parsed = (do
      guard h.multipart
      total ← number_int fields (codes "total")
      guard (not (ltb_ℤ total h.part))
      some (record h { total = total })) in
    if is_some (field fields (codes "total")) then parsed else some h

unfoldable pub yenc_prescan : Bytes → Option YencHeader
yenc_prescan raw = do
  let line = strip_line_end raw
  guard (starts_with line (codes "=ybegin "))
  fields ← parse_fields (drop 8 line) true
  line_length ← number 10 u64_max fields (codes "line")
  guard (not (line_length == 0))
  size ← number 10 u64_max fields (codes "size")
  name ← field fields (codes "name")
  guard (ltb 0 (length name))
  h ← read_part fields (record {
    filename = name;
    size = size;
    line_length = line_length;
    part = pos 1;
    total = pos 1;
    multipart = false;
  })
  read_total fields h

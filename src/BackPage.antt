-- ===== src/BackPage.antt =====
-- The virtual array of libtrn/backpage.cpp: the file positions of an article's lines, kept in a
-- temporary file with one block of it in memory. The file is what POSIX says of one that only this
-- code writes, and that is open (`init` ends the program otherwise): a write of a block puts all its
-- elements there, and a read copies the elements that lie within the file's size. Offsets count
-- elements here, of `sizeof(vary_buf[0])` bytes each. The index of a write is a natural number: a
-- negative one is outside the array in the source.
pub mod Refine
use trn.Base.{
  ℕ, zero, suc, ◌+◌, ◌-◌, ◌*◌, ◌/◌, ◌%◌, Bool, true, false, not, Option, none, some, ltb, leb, ◌==◌,
  ◌&&◌, if◌then◌else◌,
}
use trn.Base.Int.{ℤ, pos, negsuc}

abbrev pub vary_size : ℕ
vary_size = 256

pub record VaryFile : Type 0 where
  pub size : ℕ
  pub cell : ℕ → ℤ

-- `old_offset` is -1 (`none`) while no block is in memory; `vary_fd` is -1 while `is_open` is false.
pub record BackPageCache : Type 0 where
  pub is_open : Bool
  pub file : VaryFile
  pub vary_buf : ℕ → ℤ
  pub old_offset : Option ℕ

-- `final`: the file is closed, and the buffer is cleared.
unfoldable pub final : BackPageCache → BackPageCache
final s = record s { is_open = false; vary_buf = λ i. pos 0; old_offset = none }

-- `init` with a file that could be created: it is new and empty.
unfoldable pub init : BackPageCache → BackPageCache
unfolding final
init s = record (final s) { is_open = true; file = record { size = 0; cell = λ i. pos 0 } }

-- `lseek(vary_fd, old_offset, 0); write(vary_fd, vary_buf, sizeof(vary_buf))`
unfoldable pub write_block : VaryFile → ℕ → (ℕ → ℤ) → VaryFile
write_block f off buf = record {
  size = if ltb f.size (off + vary_size) then off + vary_size else f.size;
  cell = λ i. if leb off i && ltb i (off + vary_size) then buf (i - off) else f.cell i;
}

-- `lseek(vary_fd, offset, 0); read(vary_fd, vary_buf, sizeof(vary_buf))`
unfoldable pub read_block : VaryFile → ℕ → (ℕ → ℤ) → ℕ → ℤ
read_block f off buf i = if ltb (off + i) f.size then f.cell (off + i) else buf i

unfoldable pub bring : BackPageCache → VaryFile → ℕ → BackPageCache
bring s f offset = record s {
  file = f;
  vary_buf = read_block f offset s.vary_buf;
  old_offset = some offset;
}

-- The block is brought in unless it is in memory, and the one in memory is written out before.
unfoldable pub load_over : Option ℕ → BackPageCache → ℕ → BackPageCache
load_over none s offset = bring s s.file offset
load_over (some off) s offset =
    if not (off == offset) then bring s (write_block s.file off s.vary_buf) offset else s

abbrev pub load : BackPageCache → ℕ → BackPageCache
load s offset = load_over s.old_offset s offset

unfoldable pub vary_read : BackPageCache → ℤ → BackPageCache × ℤ
vary_read s (negsuc n) = (s, pos 0)
vary_read s (pos index) =
    let sub_index = index % vary_size in
    let s' = load s (index - sub_index) in (s', s'.vary_buf sub_index)

unfoldable pub vary_write : BackPageCache → ℕ → ℤ → BackPageCache
vary_write s index value =
    let sub_index = index % vary_size in
    let s' = load s (index - sub_index) in
    record s' { vary_buf = λ i. if i == sub_index then value else s'.vary_buf i }

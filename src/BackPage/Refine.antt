-- ===== src/BackPage/Refine.antt =====
-- The paged array of libtrn/backpage.cpp beside a plain one.
use trn.Base.{
  ℕ, ◌+◌, ◌-◌, ◌%◌, true, false, ◌≡◌, ◌≢◌, refl, Option, none, some, List, [], ◌∷◌, ltb, leb, ◌==◌,
  ==_refl, ◌&&◌, if◌then◌else◌, Bool-cases, inl, inr, arith,
}
use trn.Base.Int.{ℤ, pos, negsuc}
use trn.BackPage.{
  vary_size, VaryFile, BackPageCache, init, write_block, read_block, bring, load_over, load,
  vary_read, vary_write,
}

-- What the array holds at an index: in the block in memory, else in the file, else nothing.
in_file : VaryFile → ℕ → Option ℤ
in_file f i = if ltb i f.size then some (f.cell i) else none

in_block : ℕ → (ℕ → ℤ) → VaryFile → ℕ → Option ℤ
in_block off buf f i =
    if leb off i && ltb i (off + vary_size) then some (buf (i - off)) else in_file f i

stored_at : Option ℕ → BackPageCache → ℕ → Option ℤ
stored_at none s i = in_file s.file i
stored_at (some off) s i = in_block off s.vary_buf s.file i

pub stored : BackPageCache → ℕ → Option ℤ
stored s = stored_at s.old_offset s

write_block-keeps :
    (f : VaryFile) (off : ℕ) (buf : ℕ → ℤ) (i : ℕ) (v : ℤ)
    → in_block off buf f i ≡ some v
    → in_file (write_block f off buf) i ≡ some v
unfolding in_block in_file write_block
write_block-keeps f off buf i v h = ground arith

read_block-keeps :
    (f : VaryFile) (off : ℕ) (buf : ℕ → ℤ) (i : ℕ) (v : ℤ)
    → in_file f i ≡ some v
    → in_block off (read_block f off buf) f i ≡ some v
unfolding in_block in_file read_block
read_block-keeps f off buf i v h = elim (Bool-cases (leb off i)) [
  | inl inside ↦ let back : off + (i - off) ≡ i = ground arith in ground (arith, back)
  | inr outside ↦ ground arith
]

-- Bringing a block in loses nothing.
load_over-keeps :
    (o : Option ℕ) (s : BackPageCache) (offset i : ℕ) (v : ℤ)
    → s.old_offset ≡ o
    → stored_at o s i ≡ some v
    → stored (load_over o s offset) i ≡ some v
unfolding stored stored_at load_over bring
load_over-keeps none s offset i v e h = read_block-keeps s.file offset s.vary_buf i v h
load_over-keeps (some off) s offset i v e h = elim (Bool-cases (off == offset)) [
  | inl same ↦ rw (same, e) h
  | inr other ↦
      rw other
        (read_block-keeps _ offset s.vary_buf i v (write_block-keeps s.file off s.vary_buf i v h))
]

load_over-old_offset :
    (o : Option ℕ) (s : BackPageCache) (offset : ℕ)
    → s.old_offset ≡ o
    → (load_over o s offset).old_offset ≡ some offset
unfolding load_over bring
load_over-old_offset none s offset e = refl
load_over-old_offset (some off) s offset e = ground arith

module _ (s : BackPageCache) where
  load-keeps : (offset i : ℕ) (v : ℤ) → stored s i ≡ some v → stored (load s offset) i ≡ some v
  unfolding stored
  load-keeps offset i v h = load_over-keeps s.old_offset s offset i v refl h

  load-old_offset : (offset : ℕ) → (load s offset).old_offset ≡ some offset
  load-old_offset offset = load_over-old_offset s.old_offset s offset refl

-- The element of index `n`, while its block is in memory.
module _ (s : BackPageCache) (n : ℕ) (here : s.old_offset ≡ some (n - n % vary_size)) where
  stored-block : (v : ℤ) → stored s n ≡ some v → s.vary_buf (n % vary_size) ≡ v
  unfolding stored stored_at in_block
  stored-block v h =
      let back : n - (n - n % vary_size) ≡ n % vary_size = omega arith in
      let at_block : in_block (n - n % vary_size) s.vary_buf s.file n ≡ some v = rw here at h in
      let inside : (leb (n - n % vary_size) n && ltb n (n - n % vary_size + vary_size)) ≡ true =
        ground arith in
      ground (arith, rw (inside, back) at at_block)

  -- The state after `vary_buf[sub_index] = value`.
  abbrev put : ℤ → BackPageCache
  put value = record s { vary_buf = λ i. if i == n % vary_size then value else s.vary_buf i }

  stored-put : (v : ℤ) → stored (put v) n ≡ some v
  unfolding stored stored_at in_block
  stored-put v =
      let back : n - (n - n % vary_size) ≡ n % vary_size = omega arith in
      let inside : (leb (n - n % vary_size) n && ltb n (n - n % vary_size + vary_size)) ≡ true =
        ground arith in
      rw (here, inside, back, ==_refl (n % vary_size))

  stored-put_ne : (v : ℤ) (i : ℕ) (w : ℤ) → i ≢ n → stored s i ≡ some w → stored (put v) i ≡ some w
  unfolding stored stored_at in_block
  stored-put_ne v i w ne h =
      let off = n - n % vary_size in
      let at_block : in_block off s.vary_buf s.file i ≡ some w = rw here at h in
      rw here (elim (Bool-cases (leb off i && ltb i (off + vary_size))) [
        | inr outside ↦ rw outside (rw outside at at_block)
        | inl inside ↦
            let other : (i - off == n % vary_size) ≡ false = ground arith in
            rw (inside, other) (rw inside at at_block)
      ])

-- Whatever was stored stays stored when a line is read.
pub vary_read-keeps :
    (s : BackPageCache) (index : ℤ) (i : ℕ) (v : ℤ)
    → stored s i ≡ some v
    → stored (vary_read s index).0 i ≡ some v
unfolding vary_read
vary_read-keeps s (pos n) i v h = load-keeps s (n - n % vary_size) i v h
vary_read-keeps s (negsuc n) i v h = h

-- A read of an index where a value is stored gives it.
pub vary_read-stored :
    (s : BackPageCache) (n : ℕ) (v : ℤ) → stored s n ≡ some v → (vary_read s (pos n)).1 ≡ v
unfolding vary_read
vary_read-stored s n v h =
    let off = n - n % vary_size in
    stored-block (load s off) n (load-old_offset s off) v (load-keeps s off n v h)

pub vary_write-stored : (s : BackPageCache) (n : ℕ) (v : ℤ) → stored (vary_write s n v) n ≡ some v
unfolding vary_write
vary_write-stored s n v =
    let off = n - n % vary_size in stored-put (load s off) n (load-old_offset s off) v

pub vary_write-keeps :
    (s : BackPageCache) (n : ℕ) (v : ℤ) (i : ℕ) (w : ℤ)
    → i ≢ n
    → stored s i ≡ some w
    → stored (vary_write s n v) i ≡ some w
unfolding vary_write
vary_write-keeps s n v i w ne h =
    let off = n - n % vary_size in
    stored-put_ne (load s off) n (load-old_offset s off) v i w ne (load-keeps s off i w h)

-- The operations of a pager on the array.
pub data Op : Type 0 where
  read : ℤ → Op
  write : ℕ → ℤ → Op

unfoldable pub run : List Op → BackPageCache → BackPageCache
run [] s = s
run (read i ∷ ops) s = run ops (vary_read s i).0
run (write n v ∷ ops) s = run ops (vary_write s n v)

-- The specification: the value that was written at an index last, if one was.
unfoldable pub last_written : ℕ → List Op → Option ℤ → Option ℤ
last_written i [] last = last
last_written i (read j ∷ ops) last = last_written i ops last
last_written i (write n v ∷ ops) last = last_written i ops (if i == n then some v else last)

run-stored :
    (ops : List Op) (s : BackPageCache) (i : ℕ) (last : Option ℤ) (v : ℤ)
    → ((w : ℤ) → last ≡ some w → stored s i ≡ some w)
    → last_written i ops last ≡ some v
    → stored (run ops s) i ≡ some v
unfolding run last_written
run-stored [] s i last v known h = known v h
run-stored (read j ∷ ops) s i last v known h =
    run-stored ops (vary_read s j).0 i last v (λ w e. vary_read-keeps s j i w (known w e)) h
run-stored (write n x ∷ ops) s i last v known h =
    run-stored ops (vary_write s n x) i (if i == n then some x else last) v
      (λ w e. elim (Bool-cases (i == n)) [
        | inl same ↦
            let here : i ≡ n = ground arith in
            let value : x ≡ w = ground (arith, rw same at e) in
            rw (here, ← value) (vary_write-stored s n x)
        | inr other ↦ vary_write-keeps s n x i w (ground arith) (known w (rw other at e))
      ])
      h

pub vary_read-run :
    (s : BackPageCache) (ops : List Op) (i : ℕ) (v : ℤ)
    → last_written i ops none ≡ some v
    → (vary_read (run ops s) (pos i)).1 ≡ v
vary_read-run s ops i v h =
    vary_read-stored (run ops s) i v (run-stored ops s i none v (λ w e. cc) h)

-- From a new file on, after any sequence of reads and writes, a read of an index that the sequence
-- wrote gives the value written there last, through all changes of the block in memory.
pub vary_read-init :
    (s : BackPageCache) (ops : List Op) (i : ℕ) (v : ℤ)
    → last_written i ops none ≡ some v
    → (vary_read (run ops (init s)) (pos i)).1 ≡ v
vary_read-init s = vary_read-run (init s)

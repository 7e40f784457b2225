-- ===== src/Yenc/Crc.antt =====
-- The checksum: `crc_table` and `yenc_crc32`, on 32-bit words.
use trn.Base.{ℕ, zero, suc, ◌/◌, [], ◌∷◌, Bytes, ◌==◌, if◌then◌else◌, bit_and, bit_xor}

-- One round of the table's inner loop.
unfoldable pub crc_round : ℕ → ℕ
crc_round crc = bit_xor (crc / 2) (if bit_and crc 1 == 0 then 0 else 0xEDB88320)

unfoldable pub crc_rounds : ℕ → ℕ → ℕ
crc_rounds zero crc = crc
crc_rounds (suc n) crc = crc_rounds n (crc_round crc)

-- `CRC_TABLE[i]`
unfoldable pub crc_table : ℕ → ℕ
unfolding crc_rounds crc_round
crc_table i = crc_rounds 8 i

unfoldable pub crc_loop : ℕ → Bytes → ℕ
crc_loop crc [] = crc
crc_loop crc (byte ∷ bytes) =
    crc_loop (bit_xor (crc / 256) (crc_table (bit_and (bit_xor crc byte) 0xFF))) bytes

abbrev pub complement : ℕ → ℕ
complement x = bit_xor x 0xFFFFFFFF

unfoldable pub yenc_crc32 : Bytes → ℕ → ℕ
unfolding crc_loop crc_table
yenc_crc32 bytes previous = complement (crc_loop (complement previous) bytes)

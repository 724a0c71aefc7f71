-- ===== src/Crc32.antt =====
-- hw09-crc32/main.c: the checksum of a buffer by a table, one byte at a time.
pub mod Table
pub mod Bitwise
pub mod Detect
pub mod Print
mod Tests
use Prim.Native.Nat.{bit_and, bit_xor}
use otus_c_2025_3_kushko.Common.{ℕ, ◌/◌, ◌^◌, List, [], ◌∷◌, get_or}
use otus_c_2025_3_kushko.Crc32.Table.{crc32_tab}

-- `~0U`
abbrev pub ones : ℕ
ones = 0xffff_ffff

-- One round of the loop of `crc32`: the state after the byte `p`.
unfoldable pub update : ℕ → ℕ → ℕ
update crc p = bit_xor (get_or crc32_tab (bit_and (bit_xor crc p) 0xff) 0) (crc / 2 ^ 8)

-- The loop over the bytes that are left.
unfoldable pub run : ℕ → List ℕ → ℕ
run crc [] = crc
run crc (p ∷ buf) = run (update crc p) buf

unfoldable pub crc32 : List ℕ → ℕ
crc32 buf = bit_xor (run ones buf) ones

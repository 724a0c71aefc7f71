-- ===== src/Crc32/Tests.antt =====
-- Runs of the checksum, and its theorems at concrete buffers.
use Prim.Native.Nat.{bit_xor}
use otus_c_2025_3_kushko.Common.{ℕ, ◌≡◌, ◌≢◌, refl, List, [], ◌∷◌, ◌++◌, arith}
use otus_c_2025_3_kushko.Crc32.{ones, update, run, crc32}
use otus_c_2025_3_kushko.Crc32.Table.{crc32_tab}
use otus_c_2025_3_kushko.Crc32.Bitwise.{remainder, AreBytes, crc32-remainder}
use otus_c_2025_3_kushko.Common.{◌≤◌, length}
use otus_c_2025_3_kushko.Common.Text.{codes}
use otus_c_2025_3_kushko.Crc32.Detect.{crc32-detects}
use otus_c_2025_3_kushko.Crc32.Print.{
  show_hex, File, mapped, not_opened, out, err, print_crc32, main, read_hex, print_crc32_lem,
}

-- "123456789"
abbrev check_input : List ℕ
check_input = 49 ∷ 50 ∷ 51 ∷ 52 ∷ 53 ∷ 54 ∷ 55 ∷ 56 ∷ 57 ∷ []

check_input-AreBytes : AreBytes check_input
check_input-AreBytes = omega arith

-- The check value of this checksum's catalogue entry.
crc32_check : crc32 check_input ≡ 0xcbf4_3926
unfolding crc32 run update crc32_tab
crc32_check = refl

crc32-remainder_example : crc32 check_input ≡ bit_xor (remainder ones check_input) ones
crc32-remainder_example = crc32-remainder check_input check_input-AreBytes

crc32-detects_example :
    crc32 ((49 ∷ 50 ∷ []) ++ 51 ∷ (52 ∷ [])) ≢ crc32 ((49 ∷ 50 ∷ []) ++ 77 ∷ (52 ∷ []))
crc32-detects_example =
    crc32-detects 51 77 (49 ∷ 50 ∷ []) (52 ∷ []) (omega arith) (omega arith) (omega arith)
      (omega arith) (omega arith)

abbrev one_file : List ℕ → File
one_file [] = not_opened
one_file (c ∷ path) = mapped check_input

main-two :
    main one_file (codes "f" ∷ [] ∷ [])
    ≡ out (codes "cbf43926\n") ∷ err (codes "Error: file  not opened!\n") ∷ []
unfolding main print_crc32 show_hex crc32 run update crc32_tab
main-two = refl

print_crc32_lem_example :
    (digits : List ℕ) × (print_crc32 (codes "f") (mapped check_input) ≡ out (digits ++ 10 ∷ []))
    × (read_hex 0 digits ≡ bit_xor (remainder ones check_input) ones)
    × (length digits ≤ 8)
print_crc32_lem_example = print_crc32_lem (codes "f") check_input check_input-AreBytes

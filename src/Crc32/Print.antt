-- ===== src/Crc32/Print.antt =====
-- print_crc32 and main of hw09-crc32/main.c. What the system gives of a file is an argument.
use Prim.Native.Nat.{bit_xor}
use otus_c_2025_3_kushko.Common.{
  ℕ, zero, suc, ◌+◌, ◌-◌, ◌*◌, ◌/◌, ◌%◌, ◌≤◌, ◌<◌, ◌≡◌, refl, ap, sym, ◌∙◌, inl, inr, Bool-cases,
  List, [], ◌∷◌, ◌++◌, append-nil, append_assoc, length, length-append, ltb, if◌then◌else◌, arith,
}
use otus_c_2025_3_kushko.Common.Text.{codes}
use otus_c_2025_3_kushko.Crc32.{crc32, ones}
use otus_c_2025_3_kushko.Crc32.Bitwise.{AreBytes, remainder, crc32-remainder}
use otus_c_2025_3_kushko.Crc32.Detect.{crc32-lt}

-- A digit of `%x`.
abbrev hex_digit : ℕ → ℕ
hex_digit d = if ltb d 10 then 48 + d else 87 + d

-- The digits of a number, `f` at most.
show_hex_on : ℕ → ℕ → List ℕ
show_hex_on zero n = []
show_hex_on (suc f) n =
    let front = show_hex_on f (n / 16) in
    if ltb n 16 then hex_digit n ∷ [] else front ++ hex_digit (n % 16) ∷ []

-- `%x` of 32 bits.
unfoldable pub show_hex : ℕ → List ℕ
unfolding show_hex_on
show_hex n = show_hex_on 8 n

-- How far the file comes: it does not open, `fstat` fails with a text, `mmap` fails, or its bytes.
pub data File : Type 0 where
  not_opened : File
  no_stat : List ℕ → File
  no_map : File
  mapped : List ℕ → File

-- A line on the output, or one of the errors.
pub data Line : Type 0 where
  out err : List ℕ → Line

unfoldable pub print_crc32 : List ℕ → File → Line
print_crc32 filepath not_opened = err (codes "Error: file " ++ (filepath ++ codes " not opened!\n"))
print_crc32 filepath (no_stat text) = err (codes "Error: " ++ (text ++ 10 ∷ []))
print_crc32 filepath no_map = err (codes "Error: mmap failed!\n")
print_crc32 filepath (mapped src) = out (show_hex (crc32 src) ++ 10 ∷ [])

abbrev print_all : (List ℕ → File) → List (List ℕ) → List Line
print_all file [] = []
print_all file (path ∷ paths) = print_crc32 path (file path) ∷ print_all file paths

-- The arguments are those after the program's name.
unfoldable pub main : (List ℕ → File) → List (List ℕ) → List Line
main file [] = err (codes "Error: filepath not specified!\n") ∷ []
main file (path ∷ paths) = print_all file (path ∷ paths)

-- The number that hexadecimal digits stand for, after those read.
abbrev hex_value : ℕ → ℕ
hex_value c = if ltb c 58 then c - 48 else c - 87

unfoldable pub read_hex : ℕ → List ℕ → ℕ
read_hex acc [] = acc
read_hex acc (c ∷ cs) = read_hex (acc * 16 + hex_value c) cs

abbrev sixteens : ℕ → ℕ
sixteens zero = 1
sixteens (suc f) = 16 * sixteens f

read_hex-digit :
    (acc d : ℕ) (rest : List ℕ)
    → d < 16
    → read_hex acc (hex_digit d ∷ rest) ≡ read_hex (acc * 16 + d) rest
unfolding read_hex
read_hex-digit acc d rest h =
    let e : hex_value (hex_digit d) ≡ d = ground arith in ap (λ v. read_hex (acc * 16 + v) rest) e

show_hex_on-read :
    (f n : ℕ) (rest : List ℕ)
    → n < sixteens f
    → read_hex 0 (show_hex_on f n ++ rest) ≡ read_hex n rest
unfolding show_hex_on
show_hex_on-read zero n rest h = ap (λ k. read_hex k rest) {x = 0} {y = n} (omega arith)
show_hex_on-read (suc f) n rest h = elim (Bool-cases (ltb n 16)) [
  | inl small ↦ rw small (
      read_hex-digit 0 n rest (ground arith)
      ∙ ap (λ k. read_hex k rest) {x = 0 * 16 + n} {y = n} (omega arith))
  | inr big ↦ rw big (
      ap (read_hex 0) (append_assoc (show_hex_on f (n / 16)) (hex_digit (n % 16) ∷ []) rest)
      ∙ show_hex_on-read f (n / 16) (hex_digit (n % 16) ∷ rest) (omega arith)
      ∙ read_hex-digit (n / 16) (n % 16) rest (omega arith)
      ∙ ap (λ k. read_hex k rest) {x = n / 16 * 16 + n % 16} {y = n} (omega arith))
]

length-show_hex_on : (f n : ℕ) → length (show_hex_on f n) ≤ f
unfolding show_hex_on
length-show_hex_on zero n = omega arith
length-show_hex_on (suc f) n = ground (
  arith,
  length-show_hex_on f (n / 16),
  length-append (show_hex_on f (n / 16)) (hex_digit (n % 16) ∷ []),
)

-- What is printed of a file of bytes is a line of eight digits at most, which read as a hexadecimal
-- number are the complement of the remainder of the bitwise division of its bytes.
pub print_crc32_lem :
    (filepath src : List ℕ)
    → AreBytes src
    → (digits : List ℕ) × (print_crc32 filepath (mapped src) ≡ out (digits ++ 10 ∷ []))
      × (read_hex 0 digits ≡ bit_xor (remainder ones src) ones)
      × (length digits ≤ 8)
unfolding print_crc32 show_hex
print_crc32_lem filepath src h =
    let digits = show_hex_on 8 (crc32 src) in
    (
      digits,
      refl,
      ap (read_hex 0) (sym (append-nil digits))
          ∙ show_hex_on-read 8 (crc32 src) [] (omega (arith, crc32-lt src h))
          ∙ unfold read_hex in crc32-remainder src h,
      length-show_hex_on 8 (crc32 src),
    )

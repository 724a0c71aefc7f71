-- ===== src/Crc32/Bitwise.antt =====
-- The checksum of hw09-crc32/main.c against the division that defines it.
use Prim.Native.Nat.{bit_xor}
use otus_c_2025_3_kushko.Common.{
  ℕ, zero, suc, ◌+◌, ◌*◌, ◌/◌, ◌%◌, ◌^◌, ◌<◌, ◌≡◌, refl, ap, ap₂, sym, ◌∙◌, Bool, true, ◌==◌,
  ==_iff, List, [], ◌∷◌, get_or, All, arith,
}
use otus_c_2025_3_kushko.Common.Bits.{
  xor-half, xor-odd, xor_swap, xor_comm, xor-zero, zero-xor, xor-fields, and-byte,
}
use otus_c_2025_3_kushko.Common.{every, every-at}
use otus_c_2025_3_kushko.Crc32.{ones, update, run, crc32}
use otus_c_2025_3_kushko.Crc32.Table.{crc32_tab}

-- The polynomial, its digits reversed.
abbrev pub polynomial : ℕ
polynomial = 0xedb8_8320

-- The polynomial, if the digit is 1.
abbrev pub term : ℕ → ℕ
term zero = 0
term (suc d) = polynomial

-- One step of the division: the lowest digit leaves, and takes the polynomial off if it is 1.
unfoldable pub divide : ℕ → ℕ
divide x = bit_xor (x / 2) (term (x % 2))

-- Eight steps, for one byte.
unfoldable pub divide_byte : ℕ → ℕ
divide_byte x = divide (divide (divide (divide (divide (divide (divide (divide x)))))))

-- The division of a whole buffer.
unfoldable pub remainder : ℕ → List ℕ → ℕ
remainder crc [] = crc
remainder crc (p ∷ buf) = remainder (divide_byte (bit_xor crc p)) buf

term-xor : (c d : ℕ) → c < 2 → d < 2 → bit_xor (term c) (term d) ≡ term ((c + d) % 2)
term-xor zero d hc hd = zero-xor (term d) ∙ ap term {x = d} (omega arith)
term-xor (suc zero) zero hc hd = refl
term-xor (suc zero) (suc zero) hc hd = refl
term-xor (suc zero) (suc (suc d)) hc hd = absurd (omega arith)
term-xor (suc (suc c)) d hc hd = absurd (omega arith)

divide-xor : (a b : ℕ) → divide (bit_xor a b) ≡ bit_xor (divide a) (divide b)
unfolding divide
divide-xor a b =
    ap₂ bit_xor (xor-half a b)
      (ap term (xor-odd a b) ∙ sym (term-xor (a % 2) (b % 2) (omega arith) (omega arith)))
    ∙ xor_swap (a / 2) (b / 2) (term (a % 2)) (term (b % 2))

divide_byte-xor : (a b : ℕ) → divide_byte (bit_xor a b) ≡ bit_xor (divide_byte a) (divide_byte b)
unfolding divide_byte
divide_byte-xor a b = simp divide-xor

divide-double : (m : ℕ) → divide (m * 2) ≡ m
unfolding divide
divide-double m =
    ap₂ (λ h d. bit_xor h (term d)) {x = m * 2 / 2} {y = m} {u = m * 2 % 2} {v = 0} (omega arith)
      (omega arith)
    ∙ xor-zero m

divide_byte-shift : (q : ℕ) → divide_byte (q * 2 ^ 8) ≡ q
unfolding divide_byte
divide_byte-shift q =
    ap divide_byte {x = q * 2 ^ 8} {y = q * 2 * 2 * 2 * 2 * 2 * 2 * 2 * 2} (omega arith)
    ∙ simp divide-double

-- Eight steps shift the upper digits down and divide the lowest eight alone.
pub divide_byte_split : (x : ℕ) → divide_byte x ≡ bit_xor (divide_byte (x % 256)) (x / 256)
divide_byte_split x =
    let q = x / 256 in
    let r = x % 256 in
    ap divide_byte {x = x} {y = bit_xor (q * 2 ^ 8) r}
      (omega (arith, xor-fields 8 q r (omega arith)))
    ∙ divide_byte-xor (q * 2 ^ 8) r
    ∙ ap (λ t. bit_xor t (divide_byte r)) (divide_byte-shift q)
    ∙ xor_comm q (divide_byte r)

-- The entry for `r` is the remainder of `r`, as a test.
entry_matches : ℕ → Bool
entry_matches r = get_or crc32_tab r 0 == divide_byte r

table_matches : every entry_matches 256 ≡ true
unfolding every entry_matches crc32_tab divide_byte divide
table_matches = refl

-- Each entry of the table is the remainder of its index.
pub table-divide_byte : (r : ℕ) → r < 256 → get_or crc32_tab r 0 ≡ divide_byte r
table-divide_byte r h =
    (==_iff (get_or crc32_tab r 0) (divide_byte r)).0
      (unfold entry_matches in every-at entry_matches 256 r table_matches h)

xor-byte_high : (crc p : ℕ) → p < 256 → bit_xor crc p / 256 ≡ crc / 256
xor-byte_high crc p h = omega (
  arith,
  xor-half crc p,
  xor-half (crc / 2) (p / 2),
  xor-half (crc / 2 / 2) (p / 2 / 2),
  xor-half (crc / 2 / 2 / 2) (p / 2 / 2 / 2),
  xor-half (crc / 2 / 2 / 2 / 2) (p / 2 / 2 / 2 / 2),
  xor-half (crc / 2 / 2 / 2 / 2 / 2) (p / 2 / 2 / 2 / 2 / 2),
  xor-half (crc / 2 / 2 / 2 / 2 / 2 / 2) (p / 2 / 2 / 2 / 2 / 2 / 2),
  xor-half (crc / 2 / 2 / 2 / 2 / 2 / 2 / 2) (p / 2 / 2 / 2 / 2 / 2 / 2 / 2),
  ap (λ (t : ℕ). bit_xor (crc / 2 / 2 / 2 / 2 / 2 / 2 / 2 / 2) t)
      {x = p / 2 / 2 / 2 / 2 / 2 / 2 / 2 / 2} {y = 0} (omega arith),
  xor-zero (crc / 2 / 2 / 2 / 2 / 2 / 2 / 2 / 2),
)

pub update-divide_byte : (crc p : ℕ) → p < 256 → update crc p ≡ divide_byte (bit_xor crc p)
unfolding update
update-divide_byte crc p h =
    ap (λ i. bit_xor (get_or crc32_tab i 0) (crc / 256)) (and-byte (bit_xor crc p))
    ∙ ap₂ bit_xor (table-divide_byte (bit_xor crc p % 256) (omega arith))
        (sym (xor-byte_high crc p h))
    ∙ sym (divide_byte_split (bit_xor crc p))

-- All bytes fit eight bits.
abbrev pub AreBytes : List ℕ → Type 0
AreBytes buf = All (λ p. p < 256) buf

run-remainder : (crc : ℕ) (buf : List ℕ) → AreBytes buf → run crc buf ≡ remainder crc buf
unfolding run remainder
run-remainder crc [] h = refl
run-remainder crc (p ∷ buf) h =
    ap (λ c. run c buf) (update-divide_byte crc p h.0)
    ∙ run-remainder (divide_byte (bit_xor crc p)) buf h.1

-- On a buffer of bytes of any length, the checksum that the table gives is the complement of the
-- remainder of the bitwise division by the reversed polynomial 0xedb88320, started at all ones.
pub crc32-remainder : (buf : List ℕ) → AreBytes buf → crc32 buf ≡ bit_xor (remainder ones buf) ones
unfolding crc32
crc32-remainder buf h = ap (λ c. bit_xor c ones) (run-remainder ones buf h)

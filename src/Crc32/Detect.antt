-- ===== src/Crc32/Detect.antt =====
-- What the checksum of hw09-crc32/main.c tells apart.
use Prim.Native.Nat.{bit_xor}
use otus_c_2025_3_kushko.Common.{
  ℕ, zero, suc, ◌+◌, ◌-◌, ◌*◌, ◌/◌, ◌%◌, ◌^◌, ◌≤◌, ◌<◌, ◌≡◌, ◌≢◌, refl, ap, sym, ◌∙◌, List, [], ◌∷◌,
  ◌++◌, arith, ltb, if◌then◌else◌,
}
use otus_c_2025_3_kushko.Common.Bits.{xor-fields, xor-lt, xor-cancel, xor_assoc, xor_comm, xor-zero}
use otus_c_2025_3_kushko.Crc32.{ones, update, run, crc32}
use otus_c_2025_3_kushko.Crc32.Bitwise.{
  polynomial, term, divide, divide_byte, AreBytes, update-divide_byte,
}

-- The step back: the highest digit tells whether the polynomial was taken off.
undivide : ℕ → ℕ
undivide y = if ltb y (2 ^ 31) then y * 2 else bit_xor y polynomial * 2 + 1

high : (h : ℕ) → h < 2 ^ 31 → 2 ^ 31 ≤ bit_xor h polynomial
high h fits =
    let low : ℕ = polynomial - 2 ^ 31 in
    let e : bit_xor (1 * 2 ^ 31) low ≡ polynomial = xor-fields 31 1 low (omega arith) in
    let rest : bit_xor h low < 2 ^ 31 = xor-lt 31 h low fits (omega arith) in
    omega (
      arith,
      ap (λ t. bit_xor h t) (sym e),
      xor_assoc h (1 * 2 ^ 31) low,
      ap (λ t. bit_xor t low) (xor_comm h (1 * 2 ^ 31)),
      xor_assoc (1 * 2 ^ 31) h low,
      xor-fields 31 1 (bit_xor h low) rest,
    )

undivide-divide : (x : ℕ) → x < 2 ^ 32 → undivide (divide x) ≡ x
unfolding undivide divide
undivide-divide x h = go (x % 2) refl
  where
    go : (d : ℕ) → x % 2 ≡ d → undivide (bit_xor (x / 2) (term d)) ≡ x
    go zero e = ground (arith, xor-zero (x / 2))
    go (suc zero) e = ground (arith, high (x / 2), xor-cancel (x / 2) polynomial)
    go (suc (suc d)) e = absurd (omega arith)

divide-lt : (x : ℕ) → x < 2 ^ 32 → divide x < 2 ^ 32
unfolding divide
divide-lt x h = xor-lt 32 (x / 2) (term (x % 2)) (omega arith) (term-lt (x % 2))
  where
    term-lt : (d : ℕ) → term d < 2 ^ 32
    term-lt zero = omega arith
    term-lt (suc d) = omega arith

divide-injective : (x y : ℕ) → x < 2 ^ 32 → y < 2 ^ 32 → divide x ≡ divide y → x ≡ y
divide-injective x y hx hy e = sym (undivide-divide x hx) ∙ ap undivide e ∙ undivide-divide y hy

divide_byte-lt : (x : ℕ) → x < 2 ^ 32 → divide_byte x < 2 ^ 32
unfolding divide_byte
divide_byte-lt x h =
    let two = λ (y : ℕ) (k : y < 2 ^ 32). divide-lt (divide y) (divide-lt y k) in
    let a = two x h in let b = two _ a in let c = two _ b in two _ c

-- Two steps at a time.
twice-injective :
    (x y : ℕ) → x < 2 ^ 32 → y < 2 ^ 32 → divide (divide x) ≡ divide (divide y) → x ≡ y
twice-injective x y hx hy e =
    divide-injective x y hx hy
      (divide-injective (divide x) (divide y) (divide-lt x hx) (divide-lt y hy) e)

four-injective :
    (x y : ℕ)
    → x < 2 ^ 32
    → y < 2 ^ 32
    → divide (divide (divide (divide x))) ≡ divide (divide (divide (divide y)))
    → x ≡ y
four-injective x y hx hy e = twice-injective x y hx hy (
    twice-injective (divide (divide x)) (divide (divide y)) (divide-lt _ (divide-lt x hx))
      (divide-lt _ (divide-lt y hy)) e)

divide_byte-injective : (x y : ℕ) → x < 2 ^ 32 → y < 2 ^ 32 → divide_byte x ≡ divide_byte y → x ≡ y
unfolding divide_byte
divide_byte-injective x y hx hy e =
    let four =
      λ (z : ℕ) (k : z < 2 ^ 32). divide-lt _ (divide-lt _ (divide-lt _ (divide-lt z k))) in
    four-injective x y hx hy (
      four-injective (divide (divide (divide (divide x)))) (divide (divide (divide (divide y))))
        (four x hx) (four y hy) e)

xor-byte_lt : (crc p : ℕ) → crc < 2 ^ 32 → p < 256 → bit_xor crc p < 2 ^ 32
xor-byte_lt crc p hc hp = xor-lt 32 crc p hc (omega arith)

update-lt : (crc p : ℕ) → crc < 2 ^ 32 → p < 256 → update crc p < 2 ^ 32
update-lt crc p hc hp =
    omega
      (arith, update-divide_byte crc p hp, divide_byte-lt (bit_xor crc p) (xor-byte_lt crc p hc hp))

-- Equal states after one round come from equal words before it.
update-injective :
    (c d p q : ℕ)
    → c < 2 ^ 32
    → d < 2 ^ 32
    → p < 256
    → q < 256
    → update c p ≡ update d q
    → bit_xor c p ≡ bit_xor d q
update-injective c d p q hc hd hp hq e =
    divide_byte-injective (bit_xor c p) (bit_xor d q) (xor-byte_lt c p hc hp)
      (xor-byte_lt d q hd hq) (sym (update-divide_byte c p hp) ∙ e ∙ update-divide_byte d q hq)

run-lt : (crc : ℕ) (buf : List ℕ) → crc < 2 ^ 32 → AreBytes buf → run crc buf < 2 ^ 32
unfolding run
run-lt crc [] hc h = hc
run-lt crc (p ∷ buf) hc h = run-lt (update crc p) buf (update-lt crc p hc h.0) h.1

run-injective :
    (c d : ℕ) (buf : List ℕ)
    → c < 2 ^ 32
    → d < 2 ^ 32
    → AreBytes buf
    → run c buf ≡ run d buf
    → c ≡ d
unfolding run
run-injective c d [] hc hd h e = e
run-injective c d (p ∷ buf) hc hd h e =
    let before : update c p ≡ update d p =
      run-injective (update c p) (update d p) buf (update-lt c p hc h.0) (update-lt d p hd h.0) h.1
        e in
    sym (xor-cancel c p)
    ∙ ap (λ t. bit_xor t p) (update-injective c d p p hc hd h.0 h.0 before)
    ∙ xor-cancel d p

run-changed :
    (crc x y : ℕ) (before after : List ℕ)
    → crc < 2 ^ 32
    → AreBytes before
    → AreBytes after
    → x < 256
    → y < 256
    → run crc (before ++ x ∷ after) ≡ run crc (before ++ y ∷ after)
    → x ≡ y
unfolding run
run-changed crc x y [] after hc hb ha hx hy e =
    let same : bit_xor crc x ≡ bit_xor crc y = update-injective crc crc x y hc hc hx hy (
      run-injective (update crc x) (update crc y) after (update-lt crc x hc hx)
        (update-lt crc y hc hy) ha e) in
    sym (xor-cancel x crc)
    ∙ ap (λ t. bit_xor t crc) (xor_comm x crc ∙ same ∙ xor_comm crc y)
    ∙ xor-cancel y crc
run-changed crc x y (p ∷ before) after hc hb ha hx hy e =
    run-changed (update crc p) x y before after (update-lt crc p hc hb.0) hb.1 ha hx hy e

-- Two buffers of bytes that differ in exactly one byte have different checksums.
pub crc32-detects :
    (x y : ℕ) (before after : List ℕ)
    → AreBytes before
    → AreBytes after
    → x < 256
    → y < 256
    → x ≢ y
    → crc32 (before ++ x ∷ after) ≢ crc32 (before ++ y ∷ after)
unfolding crc32
crc32-detects x y before after hb ha hx hy differ e = differ (
    run-changed ones x y before after (omega arith) hb ha hx hy (
      sym (xor-cancel (run ones (before ++ x ∷ after)) ones)
      ∙ ap (λ t. bit_xor t ones) e
      ∙ xor-cancel (run ones (before ++ y ∷ after)) ones))

-- The checksum of a buffer of bytes fits 32 bits.
pub crc32-lt : (buf : List ℕ) → AreBytes buf → crc32 buf < 2 ^ 32
unfolding crc32
crc32-lt buf h = xor-lt 32 (run ones buf) ones (run-lt ones buf (omega arith) h) (omega arith)

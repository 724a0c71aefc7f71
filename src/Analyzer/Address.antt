-- ===== src/Analyzer/Address.antt =====
-- The texts of addresses in dpdk-analyzer/main.c.
use otus_c_2025_3_kushko.Common.{
  ℕ, ◌+◌, ◌*◌, ◌/◌, ◌%◌, ◌^◌, ◌≤◌, ◌<◌, ◌≡◌, refl, Bool, true, ◌∷◌, ◌++◌, length, length-append,
  leb, leb→le, every, every-at, take-all, arith,
}
use otus_c_2025_3_kushko.Common.Decimal.{show_nat}
use otus_c_2025_3_kushko.Analyzer.{dotted, be32_to_ip_string}

is_short : ℕ → Bool
is_short n = leb (length (show_nat n)) 3

short_table : every is_short 256 ≡ true
unfolding every is_short show_nat
short_table = refl

length-show_nat_byte : (n : ℕ) → n < 256 → length (show_nat n) ≤ 3
length-show_nat_byte n h =
    leb→le (length (show_nat n)) 3 (unfold is_short in every-at is_short 256 n short_table h)

-- An address fits its buffer of 16 bytes with the zero: its text has 15 characters at most, so that
-- it is whole, and it is the four bytes of the address in the host's order, with dots between.
be32_to_ip_string_lem :
    (rte_cpu_to_be_16 ntohl : ℕ → ℕ) (be_ip a b c d : ℕ)
    → a < 256
    → b < 256
    → c < 256
    → d < 256
    → ntohl be_ip ≡ a * 2 ^ 24 + b * 2 ^ 16 + c * 2 ^ 8 + d
    → (be32_to_ip_string rte_cpu_to_be_16 ntohl be_ip 16
        ≡ show_nat a ++ b'.' ∷ (show_nat b ++ b'.' ∷ (show_nat c ++ b'.' ∷ show_nat d)))
      × (length (be32_to_ip_string rte_cpu_to_be_16 ntohl be_ip 16) + 1 ≤ 16)
unfolding be32_to_ip_string dotted
be32_to_ip_string_lem rte_cpu_to_be_16 ntohl be_ip a b c d ha hb hc hd e =
    let text = show_nat a ++ b'.' ∷ (show_nat b ++ b'.' ∷ (show_nat c ++ b'.' ∷ show_nat d)) in
    let ea : ntohl be_ip / 2 ^ 24 % 256 ≡ a = omega arith in
    let eb : ntohl be_ip / 2 ^ 16 % 256 ≡ b = omega arith in
    let ec : ntohl be_ip / 2 ^ 8 % 256 ≡ c = omega arith in
    let ed : ntohl be_ip % 256 ≡ d = omega arith in
    let short : length text ≤ 15 = omega (
      arith,
      length-show_nat_byte a ha,
      length-show_nat_byte b hb,
      length-show_nat_byte c hc,
      length-show_nat_byte d hd,
      length-append (show_nat a) (b'.' ∷ (show_nat b ++ b'.' ∷ (show_nat c ++ b'.' ∷ show_nat d))),
      length-append (show_nat b) (b'.' ∷ (show_nat c ++ b'.' ∷ show_nat d)),
      length-append (show_nat c) (b'.' ∷ show_nat d),
    ) in
    let whole = take-all 15 text short in rw (ea, eb, ec, ed, whole) (refl, omega arith)

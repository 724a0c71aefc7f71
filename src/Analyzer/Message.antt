-- ===== src/Analyzer/Message.antt =====
-- The messages of dpdk-analyzer/main.c have no end of line.
use otus_c_2025_3_kushko.Common.{ℕ, zero, suc, ◌/◌, ◌%◌, ◌^◌, ◌≢◌, List, [], ◌∷◌, All, take, arith}
use otus_c_2025_3_kushko.Common.Decimal.{show_nat, show_nat-IsDigits}
use otus_c_2025_3_kushko.Common.Text.{codes}
use otus_c_2025_3_kushko.Logger.Lines.{IsOneLine, All-append, digits-IsOneLine}
use otus_c_2025_3_kushko.Analyzer.{
  TrafficStats, Packet, Kind, tcp, udp, icmp, other_ip, no_ip, be32_to_ip_string, dotted, message,
  count_kind,
}

All-take {ℓ κ} : {A : Type ℓ} (P : A → Type κ) (n : ℕ) (xs : List A) → All P xs → All P (take n xs)
All-take P zero [] h = tt
All-take P zero (x ∷ xs) h = tt
All-take P (suc n) [] h = tt
All-take P (suc n) (x ∷ xs) h = (h.0, All-take P n xs h.1)

number-IsOneLine : (n : ℕ) → IsOneLine (show_nat n)
number-IsOneLine n = digits-IsOneLine (show_nat n) (show_nat-IsDigits n).digits

dotted-IsOneLine : (host_ip : ℕ) → IsOneLine (dotted host_ip)
unfolding dotted
dotted-IsOneLine host_ip =
    let P = λ (c : ℕ). c ≢ 10 in
    All-append P (show_nat (host_ip / 2 ^ 24 % 256)) _ (number-IsOneLine (host_ip / 2 ^ 24 % 256)) (
      omega arith,
      All-append P (show_nat (host_ip / 2 ^ 16 % 256)) _ (number-IsOneLine (host_ip / 2 ^ 16 % 256))
          (
            omega arith,
            All-append P (show_nat (host_ip / 2 ^ 8 % 256)) _
                (number-IsOneLine (host_ip / 2 ^ 8 % 256))
                (omega arith, number-IsOneLine (host_ip % 256)),
          ),
    )

module _ (rte_cpu_to_be_16 ntohl : ℕ → ℕ) where
  address-IsOneLine : (be_ip : ℕ) → IsOneLine (be32_to_ip_string rte_cpu_to_be_16 ntohl be_ip 16)
  unfolding be32_to_ip_string
  address-IsOneLine be_ip =
      All-take (λ c. c ≢ 10) 15 (dotted (ntohl be_ip)) (dotted-IsOneLine (ntohl be_ip))

  message-IsOneLine :
      (p : Packet) (src_port dst_port : ℕ) (name : List ℕ)
      → IsOneLine name
      → IsOneLine (message rte_cpu_to_be_16 ntohl p src_port dst_port name)
  unfolding message
  message-IsOneLine p src_port dst_port name h =
      let P = λ (c : ℕ). c ≢ 10 in
      All-append P (be32_to_ip_string rte_cpu_to_be_16 ntohl p.src_addr 16) _
        (address-IsOneLine p.src_addr)
        (
          omega arith,
          All-append P (show_nat src_port) _ (number-IsOneLine src_port) (
            omega arith,
            (
              omega arith,
              (
                omega arith,
                All-append P (be32_to_ip_string rte_cpu_to_be_16 ntohl p.dst_addr 16) _
                    (address-IsOneLine p.dst_addr)
                    (
                      omega arith,
                      All-append P (show_nat dst_port) _ (number-IsOneLine dst_port)
                          (All-append P (codes " proto ") name (omega arith) h),
                    ),
              ),
            ),
          ),
        )

  pub count-message :
      (s : TrafficStats) (p : Packet) (k : Kind)
      → IsOneLine (count_kind rte_cpu_to_be_16 ntohl s p k).1
  unfolding count_kind
  count-message s p tcp = message-IsOneLine p p.src_port p.dst_port (codes "TCP") (omega arith)
  count-message s p udp = message-IsOneLine p p.src_port p.dst_port (codes "UDP") (omega arith)
  count-message s p icmp = message-IsOneLine p 0 0 (codes "ICMP") (omega arith)
  count-message s p other_ip = message-IsOneLine p 0 0 (codes "???") (omega arith)
  count-message s p no_ip = omega arith

-- ===== src/Analyzer.antt =====
-- dpdk-analyzer/main.c: the counters of the packets that a port receives. The calls of the network
-- library are not modelled: a packet is what the program reads of its headers.
pub mod Counts
pub mod Address
pub mod Message
pub mod Program
mod Tests
use otus_c_2025_3_kushko.Common.{
  ℕ, zero, suc, ◌+◌, ◌*◌, ◌/◌, ◌%◌, ◌^◌, Bool, true, false, List, [], ◌∷◌, ◌++◌, take, ◌==◌,
  if◌then◌else◌,
}
use otus_c_2025_3_kushko.Common.Decimal.{show_nat}

pub record TrafficStats : Type 0 where
  pub total_packets : ℕ
  pub total_bytes : ℕ
  pub eth_packets : ℕ
  pub ip_packets : ℕ
  pub tcp_packets : ℕ
  pub udp_packets : ℕ
  pub icmp_packets : ℕ
  pub other_packets : ℕ

-- `static traffic_stats stats = {0}`
abbrev pub no_stats : TrafficStats
no_stats = record {
  total_packets = 0;
  total_bytes = 0;
  eth_packets = 0;
  ip_packets = 0;
  tcp_packets = 0;
  udp_packets = 0;
  icmp_packets = 0;
  other_packets = 0;
}

-- The fields as the program reads them, in the byte order of the network; the ports are those of the
-- header after the one of IP.
pub record Packet : Type 0 where
  pub pkt_len : ℕ
  pub ether_type : ℕ
  pub next_proto_id : ℕ
  pub src_addr : ℕ
  pub dst_addr : ℕ
  pub src_port : ℕ
  pub dst_port : ℕ

-- A sum of a counter of 64 bits.
unfoldable pub add_64 : ℕ → ℕ → ℕ
add_64 a b = (a + b) % 2 ^ 64

-- The text of an address in the host's byte order, before the cut to the buffer.
unfoldable pub dotted : ℕ → List ℕ
dotted host_ip =
    show_nat (host_ip / 2 ^ 24 % 256)
    ++ b'.'
      ∷ (show_nat (host_ip / 2 ^ 16 % 256)
          ++ b'.' ∷ (show_nat (host_ip / 2 ^ 8 % 256) ++ b'.' ∷ show_nat (host_ip % 256)))

-- What `analyze_packet` counts a packet as.
pub data Kind : Type 0 where
  tcp udp icmp : Kind
  other_ip : Kind
  no_ip : Kind

-- The two functions are `rte_cpu_to_be_16` and `ntohl`.
module _ (rte_cpu_to_be_16 ntohl : ℕ → ℕ) where
  -- `snprintf` into a buffer of `str_size` bytes.
  unfoldable pub be32_to_ip_string : ℕ → ℕ → List ℕ
  be32_to_ip_string be_ip zero = []
  be32_to_ip_string be_ip (suc n) = take n (dotted (ntohl be_ip))

  -- The tests of `analyze_packet`.
  unfoldable pub kind : Packet → Kind
  kind p =
      if p.ether_type == rte_cpu_to_be_16 0x800
      then (if p.next_proto_id == 6
          then tcp
          else if p.next_proto_id == 17
          then udp
          else if p.next_proto_id == 1
          then icmp
          else other_ip)
      else no_ip

  -- The message of a packet of IP, up to the name of its protocol. The ports stay 0 but for TCP and
  -- UDP.
  unfoldable pub message : Packet → ℕ → ℕ → List ℕ → List ℕ
  message p src_port dst_port name =
      be32_to_ip_string p.src_addr 16
      ++ b':'
        ∷ (show_nat src_port
            ++ 32
              ∷ b'>'
              ∷ 32
              ∷ (be32_to_ip_string p.dst_addr 16
                  ++ b':'
                    ∷ (show_nat dst_port ++ 32 ∷ b'p' ∷ b'r' ∷ b'o' ∷ b't' ∷ b'o' ∷ 32 ∷ name)))

  -- The branches of `analyze_packet`: the counters, and the message for the log.
  unfoldable pub count_kind : TrafficStats → Packet → Kind → TrafficStats × List ℕ
  count_kind s p tcp = (
    record s { ip_packets = add_64 s.ip_packets 1; tcp_packets = add_64 s.tcp_packets 1 },
    message p p.src_port p.dst_port (b'T' ∷ b'C' ∷ b'P' ∷ []),
  )
  count_kind s p udp = (
    record s { ip_packets = add_64 s.ip_packets 1; udp_packets = add_64 s.udp_packets 1 },
    message p p.src_port p.dst_port (b'U' ∷ b'D' ∷ b'P' ∷ []),
  )
  count_kind s p icmp = (
    record s { ip_packets = add_64 s.ip_packets 1; icmp_packets = add_64 s.icmp_packets 1 },
    message p 0 0 (b'I' ∷ b'C' ∷ b'M' ∷ b'P' ∷ []),
  )
  count_kind s p other_ip = (
    record s { ip_packets = add_64 s.ip_packets 1; other_packets = add_64 s.other_packets 1 },
    message p 0 0 (b'?' ∷ b'?' ∷ b'?' ∷ []),
  )
  count_kind s p no_ip =
      (record s { other_packets = add_64 s.other_packets 1 }, b'?' ∷ b'?' ∷ b'?' ∷ [])

  unfoldable pub analyze_packet : TrafficStats → Packet → TrafficStats × List ℕ
  analyze_packet s p =
      count_kind
        (record s {
          total_packets = add_64 s.total_packets 1;
          total_bytes = add_64 s.total_bytes p.pkt_len;
        })
        p (kind p)

  -- The packets of one burst, in order.
  unfoldable pub analyze_burst : TrafficStats → List Packet → TrafficStats
  analyze_burst s [] = s
  analyze_burst s (p ∷ ps) = analyze_burst (analyze_packet s p).0 ps

  -- The loop of `main`: before each burst, whether a signal has set `force_quit`. The counters, and
  -- whether the loop has ended: when the bursts are over without `force_quit`, it goes on.
  unfoldable pub receive : TrafficStats → List (Bool × List Packet) → TrafficStats × Bool
  receive s [] = (s, false)
  receive s ((force_quit, burst) ∷ bursts) =
      let rest = receive (analyze_burst s burst) bursts in if force_quit then (s, true) else rest

-- ===== src/Analyzer/Tests.antt =====
-- Runs of dpdk-analyzer, on a machine of the other byte order than the network's.
use otus_c_2025_3_kushko.Common.{
  ℕ, ◌+◌, ◌*◌, ◌/◌, ◌%◌, ◌^◌, ◌≡◌, refl, Bool, true, false, List, [], ◌∷◌, ◌++◌, length, arith,
}
use otus_c_2025_3_kushko.Analyzer.{Packet, no_stats, receive}
use otus_c_2025_3_kushko.Analyzer.Counts.{
  HasAdded, receive_lem, received, bytes_of, tally, is_tcp, is_udp, is_icmp, is_other_ip, is_no_ip,
}
use otus_c_2025_3_kushko.Common.{some, none}
use otus_c_2025_3_kushko.Common.Int.{pos}
use otus_c_2025_3_kushko.Common.Text.{codes}
use otus_c_2025_3_kushko.Logger.Lines.{unlines, split_lines, log_lines}
use otus_c_2025_3_kushko.Analyzer.Program.{
  Setup, exits, stops, print_stats, loop_calls, main, main-stops,
}

abbrev swap_16 : ℕ → ℕ
swap_16 n = n % 256 * 256 + n / 256

abbrev swap_32 : ℕ → ℕ
swap_32 n = n % 256 * 2 ^ 24 + n / 256 % 256 * 2 ^ 16 + n / 2 ^ 16 % 256 * 2 ^ 8 + n / 2 ^ 24

abbrev packet : ℕ → Packet
packet proto = record {
  pkt_len = 60;
  ether_type = 8;
  next_proto_id = proto;
  src_addr = 0x0100_007F;
  dst_addr = 0x0100_007F;
  src_port = 80;
  dst_port = 443;
}

abbrev bursts : List (Bool × List Packet)
bursts = (false, packet 6 ∷ packet 17 ∷ []) ∷ (false, packet 200 ∷ []) ∷ (true, packet 6 ∷ []) ∷ []

receive_lem_example :
    HasAdded swap_16 swap_32 no_stats
      (receive swap_16 swap_32 no_stats bursts).0
      (length (received bursts))
      (bytes_of (received bursts))
      (λ f. tally swap_16 swap_32 f (received bursts))
    × (tally swap_16 swap_32 is_tcp (received bursts)
          + tally swap_16 swap_32 is_udp (received bursts)
          + tally swap_16 swap_32 is_icmp (received bursts)
          + tally swap_16 swap_32 is_other_ip (received bursts)
          + tally swap_16 swap_32 is_no_ip (received bursts)
        ≡ length (received bursts))
receive_lem_example = receive_lem swap_16 swap_32 bursts

abbrev all_right : Setup
all_right = record {
  eal_init = pos 2;
  ports = 1;
  has_pool = true;
  configure = pos 0;
  queue_setup = pos 0;
  dev_start = pos 0;
}

no_ports-exits :
    main swap_16 swap_32 (codes "main.c") (record all_right { ports = 0 }) none bursts
    ≡ exits (codes "No Ethernet ports found\n")
unfolding main
no_ports-exits = refl

main-stops_example :
    let lines = log_lines (loop_calls swap_16 swap_32 (codes "main.c") no_stats bursts) in
    (text : List ℕ) × (main swap_16 swap_32
        (codes "main.c")
        all_right
        (some (unlines (codes "old" ∷ [])))
        bursts
      ≡ stops (print_stats (receive swap_16 swap_32 no_stats bursts).0) (some text))
    × (split_lines text ≡ ((codes "old" ∷ []) ++ lines) ++ [] ∷ [])
    × (length lines ≡ length (received bursts))
main-stops_example =
    main-stops swap_16 swap_32 (codes "main.c") (omega arith) all_right 2 0 (codes "old" ∷ [])
      bursts refl (omega arith) refl refl refl refl (omega arith)

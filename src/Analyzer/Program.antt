-- ===== src/Analyzer/Program.antt =====
-- `main` of dpdk-analyzer/main.c: the setting up of the port, the log of the packets and the final
-- statistics. The log is that of hw07-logger, whose library the program links.
use otus_c_2025_3_kushko.Common.{
  ℕ, zero, suc, ◌≡◌, ◌≢◌, refl, ap, ap₂, ◌∙◌, Bool, true, false, Bool-cases, inl, inr, List, [],
  ◌∷◌, ◌++◌, Option, none, some, length, length-append, ◌==◌, ne→==, if◌then◌else◌, arith,
}
use otus_c_2025_3_kushko.Common.Int.{ℤ, pos, negsuc}
use otus_c_2025_3_kushko.Common.Decimal.{show_nat}
use otus_c_2025_3_kushko.Common.Text.{codes}
use otus_c_2025_3_kushko.Logger.{info, Logger, logger_init, Entry, log_all, logger_free}
use otus_c_2025_3_kushko.Logger.Lines.{
  IsOneLine, All-append, AreLines, IsPlain, ArePlain, unlines, split_lines, log_lines,
  log_lines-append, log_all_lem,
}
use otus_c_2025_3_kushko.Analyzer.{
  TrafficStats, no_stats, Packet, kind, analyze_packet, analyze_burst, receive,
}
use otus_c_2025_3_kushko.Analyzer.Counts.{received, has_quit, receive-quit}
use otus_c_2025_3_kushko.Analyzer.Message.{count-message}

-- `port_init`, by what its three calls return.
unfoldable pub port_init : ℤ → ℤ → ℤ → ℤ
port_init (negsuc n) queue start = negsuc n
port_init (pos (suc n)) queue start = pos (suc n)
port_init (pos zero) (negsuc n) start = negsuc n
port_init (pos zero) (pos (suc n)) start = pos (suc n)
port_init (pos zero) (pos zero) (negsuc n) = negsuc n
port_init (pos zero) (pos zero) (pos n) = pos 0

-- The text of `print_stats`.
unfoldable pub print_stats : TrafficStats → List ℕ
print_stats s =
    codes "\n=== Traffic Statistics ===\n"
    ++ (codes "Total packets: "
        ++ (show_nat s.total_packets
            ++ (codes "\nTotal bytes: "
                ++ (show_nat s.total_bytes
                    ++ (codes "\nIP packets: "
                        ++ (show_nat s.ip_packets
                            ++ (codes "\nTCP packets: "
                                ++ (show_nat s.tcp_packets
                                    ++ (codes "\nUDP packets: "
                                        ++ (show_nat s.udp_packets
                                            ++ (codes "\nICMP packets: "
                                                ++ (show_nat s.icmp_packets
                                                    ++ (codes "\nOther packets: "
                                                        ++ (show_nat s.other_packets
                                                            ++ codes
                                                            "\n==========================\n"))))))))))))))

-- The call of `logger_info`, an `info` of line 158.
abbrev pub log_call : List ℕ → List ℕ → Entry
log_call file log_msg = record {
  log_type = info;
  line = pos 158;
  func = codes "analyze_packet";
  file = file;
  message = log_msg;
  strings = none;
}

-- What the calls before the loop return: `rte_eal_init`, the number of ports, whether there is a
-- pool, and the three calls of `port_init`.
pub record Setup : Type 0 where
  pub eal_init : ℤ
  pub ports : ℕ
  pub has_pool : Bool
  pub configure : ℤ
  pub queue_setup : ℤ
  pub dev_start : ℤ

-- The message of an exit; the counters while the loop goes on; or the statistics printed at the end
-- with the text of the log.
pub data Outcome : Type 0 where
  exits : List ℕ → Outcome
  runs : TrafficStats → Outcome
  stops : List ℕ → Option (List ℕ) → Outcome

abbrev is_negative : ℤ → Bool
is_negative (pos n) = false
is_negative (negsuc n) = true

abbrev is_zero : ℤ → Bool
is_zero (pos n) = n == 0
is_zero (negsuc n) = false

-- The text of the log after `logger_free`.
abbrev log_text : Option Logger → Option (List ℕ)
log_text none = none
log_text (some logger) = logger_free logger

module _ (rte_cpu_to_be_16 ntohl : ℕ → ℕ) (file : List ℕ) where
  -- The calls of the logger for the packets of a burst, in order.
  unfoldable pub burst_calls : TrafficStats → List Packet → List Entry
  burst_calls s [] = []
  burst_calls s (p ∷ ps) =
      let (s', log_msg) = analyze_packet rte_cpu_to_be_16 ntohl s p in
      log_call file log_msg ∷ burst_calls s' ps

  -- Those of the loop of `main`.
  unfoldable pub loop_calls : TrafficStats → List (Bool × List Packet) → List Entry
  loop_calls s [] = []
  loop_calls s ((force_quit, burst) ∷ bursts) =
      let rest = loop_calls (analyze_burst rte_cpu_to_be_16 ntohl s burst) bursts in
      if force_quit then [] else burst_calls s burst ++ rest

  -- `opened` is the text of log.txt when it opens.
  unfoldable pub main : Setup → Option (List ℕ) → List (Bool × List Packet) → Outcome
  main setup opened bursts =
      let logger =
        log_all (some (logger_init (codes "log.txt") opened)) (loop_calls no_stats bursts) in
      if is_negative setup.eal_init
      then exits (codes "Error with EAL initialization\n")
      else if setup.ports == 0
      then exits (codes "No Ethernet ports found\n")
      else if setup.has_pool
      then (if is_zero (port_init setup.configure setup.queue_setup setup.dev_start)
          then (let (stats, has_ended) = receive rte_cpu_to_be_16 ntohl no_stats bursts in
              if has_ended then stops (print_stats stats) (log_text logger) else runs stats)
          else exits (codes "Cannot init port 0\n"))
      else exits (codes "Cannot create mbuf pool\n")

  module _ (file_line : IsOneLine file) where
    burst_calls-ArePlain :
        (s : TrafficStats) (ps : List Packet)
        → ArePlain (burst_calls s ps)
          × (length (burst_calls s ps) ≡ length ps)
          × (length (log_lines (burst_calls s ps)) ≡ length ps)
    unfolding burst_calls analyze_packet
    burst_calls-ArePlain s [] = (tt, refl, refl)
    burst_calls-ArePlain s (p ∷ ps) =
        let (s', log_msg) = analyze_packet rte_cpu_to_be_16 ntohl s p in
        let (plain, size, lines) = burst_calls-ArePlain s' ps in
        let h = count-message rte_cpu_to_be_16 ntohl _ p (kind rte_cpu_to_be_16 ntohl p) in
        (
          (record { func = omega arith; file = file_line; message = h; trace = tt }, plain),
          ap suc size,
          ap suc lines,
        )

    loop_calls-ArePlain :
        (s : TrafficStats) (bursts : List (Bool × List Packet))
        → ArePlain (loop_calls s bursts)
          × (length (log_lines (loop_calls s bursts)) ≡ length (received bursts))
    unfolding loop_calls
    loop_calls-ArePlain s [] = (tt, refl)
    loop_calls-ArePlain s ((force_quit, burst) ∷ bursts) =
        let s' = analyze_burst rte_cpu_to_be_16 ntohl s burst in
        let (plain, _, lines) = burst_calls-ArePlain s burst in
        let (plain', lines') = loop_calls-ArePlain s' bursts in
        elim (Bool-cases force_quit) [
          | inl e ↦ rw e (tt, refl)
          | inr e ↦ rw e (
            All-append IsPlain (burst_calls s burst) (loop_calls s' bursts) plain plain',
            omega (
              arith,
              length-append burst (received bursts),
              length-append (log_lines (burst_calls s burst)) (log_lines (loop_calls s' bursts)),
              ap (length {A = List ℕ})
                  (log_lines-append (burst_calls s burst) (loop_calls s' bursts)),
            ),
          )
        ]

    -- When every call of the setting up succeeds and the log opens with whole lines in it: once a
    -- burst comes with `force_quit` set, the program stops and prints the statistics of the packets
    -- received before it, and the log then has, behind the lines that were there, just one line for
    -- each of them; until then it runs on with the counters of the packets received.
    pub main-stops :
        (setup : Setup) (eal start : ℕ) (old : List (List ℕ)) (bursts : List (Bool × List Packet))
        → setup.eal_init ≡ pos eal
        → setup.ports ≢ 0
        → setup.has_pool ≡ true
        → setup.configure ≡ pos 0
        → setup.queue_setup ≡ pos 0
        → setup.dev_start ≡ pos start
        → AreLines old
        → let lines = log_lines (loop_calls no_stats bursts) in
          let stats = (receive rte_cpu_to_be_16 ntohl no_stats bursts).0 in
          (text : List ℕ) × (main setup (some (unlines old)) bursts
            ≡ (if has_quit bursts then stops (print_stats stats) (some text) else runs stats))
          × (split_lines text ≡ (old ++ lines) ++ [] ∷ [])
          × (length lines ≡ length (received bursts))
    unfolding main port_init
    main-stops setup eal start old bursts ok some_port pool configured queue started h =
        let (plain, size) = loop_calls-ArePlain no_stats bursts in
        let ((text, run, freed, split), shut, nothing) =
          log_all_lem (codes "log.txt") old (loop_calls no_stats bursts) h plain in
        let stats = (receive rte_cpu_to_be_16 ntohl no_stats bursts).0 in
        (
          text,
          rw (ok, ne→== setup.ports 0 some_port, pool, configured, queue, started)
              (ap₂ (λ b t. if b then stops (print_stats stats) t else runs stats)
                (receive-quit rte_cpu_to_be_16 ntohl no_stats bursts) (ap log_text run ∙ freed)),
          split,
          size,
        )

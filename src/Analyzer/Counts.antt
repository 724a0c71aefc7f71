-- ===== src/Analyzer/Counts.antt =====
-- What the counters of dpdk-analyzer/main.c hold.
use otus_c_2025_3_kushko.Common.{
  ℕ, ◌+◌, ◌≡◌, refl, ap, sym, ◌∙◌, Bool, true, false, ◌||◌, List, [], ◌∷◌, ◌++◌, length,
  if◌then◌else◌, Bool-cases, inl, inr, subst, arith,
}
use otus_c_2025_3_kushko.Analyzer.{
  TrafficStats, no_stats, Packet, Kind, tcp, udp, icmp, other_ip, no_ip, add_64, kind, count_kind,
  analyze_packet, analyze_burst, receive,
}

abbrev pub bytes_of : List Packet → ℕ
bytes_of [] = 0
bytes_of (p ∷ ps) = p.pkt_len + bytes_of ps

-- The packets of the bursts that come before `force_quit` is set.
abbrev pub received : List (Bool × List Packet) → List Packet
received [] = []
received ((force_quit, burst) ∷ bursts) =
    let rest = burst ++ received bursts in if force_quit then [] else rest

-- Some burst comes when `force_quit` is set.
abbrev pub has_quit : List (Bool × List Packet) → Bool
has_quit [] = false
has_quit ((force_quit, burst) ∷ bursts) = force_quit || has_quit bursts

-- What a packet of each kind adds to a counter.
abbrev pub is_tcp : Kind → ℕ
is_tcp tcp = 1
is_tcp udp = 0
is_tcp icmp = 0
is_tcp other_ip = 0
is_tcp no_ip = 0

abbrev pub is_udp : Kind → ℕ
is_udp tcp = 0
is_udp udp = 1
is_udp icmp = 0
is_udp other_ip = 0
is_udp no_ip = 0

abbrev pub is_icmp : Kind → ℕ
is_icmp tcp = 0
is_icmp udp = 0
is_icmp icmp = 1
is_icmp other_ip = 0
is_icmp no_ip = 0

abbrev pub is_other_ip : Kind → ℕ
is_other_ip tcp = 0
is_other_ip udp = 0
is_other_ip icmp = 0
is_other_ip other_ip = 1
is_other_ip no_ip = 0

abbrev pub is_no_ip : Kind → ℕ
is_no_ip tcp = 0
is_no_ip udp = 0
is_no_ip icmp = 0
is_no_ip other_ip = 0
is_no_ip no_ip = 1

one_kind : (k : Kind) → is_tcp k + is_udp k + is_icmp k + is_other_ip k + is_no_ip k ≡ 1
one_kind tcp = refl
one_kind udp = refl
one_kind icmp = refl
one_kind other_ip = refl
one_kind no_ip = refl

module _ (rte_cpu_to_be_16 ntohl : ℕ → ℕ) where
  -- The sum of what some packets add.
  abbrev pub tally : (Kind → ℕ) → List Packet → ℕ
  tally f [] = 0
  tally f (p ∷ ps) = f (kind rte_cpu_to_be_16 ntohl p) + tally f ps

  abbrev one_of : Packet → (Kind → ℕ) → ℕ
  one_of p f = f (kind rte_cpu_to_be_16 ntohl p)

  -- The counters of `s'` are those of `s` with some amounts added, in 64 bits.
  pub record HasAdded (s s' : TrafficStats) (packets bytes : ℕ) (of : (Kind → ℕ) → ℕ) : Type 0 where
    pub total_packets : s'.total_packets ≡ add_64 s.total_packets packets
    pub total_bytes : s'.total_bytes ≡ add_64 s.total_bytes bytes
    pub tcp_packets : s'.tcp_packets ≡ add_64 s.tcp_packets (of is_tcp)
    pub udp_packets : s'.udp_packets ≡ add_64 s.udp_packets (of is_udp)
    pub icmp_packets : s'.icmp_packets ≡ add_64 s.icmp_packets (of is_icmp)
    pub other_packets : s'.other_packets ≡ add_64 s.other_packets (of is_other_ip + of is_no_ip)
    pub ip_packets :
        s'.ip_packets ≡ add_64 s.ip_packets (of is_tcp + of is_udp + of is_icmp + of is_other_ip)
    pub eth_packets : s'.eth_packets ≡ s.eth_packets

  -- Every counter fits 64 bits.
  pub record IsWord64 (s : TrafficStats) : Type 0 where
    pub total_packets : add_64 s.total_packets 0 ≡ s.total_packets
    pub total_bytes : add_64 s.total_bytes 0 ≡ s.total_bytes
    pub tcp_packets : add_64 s.tcp_packets 0 ≡ s.tcp_packets
    pub udp_packets : add_64 s.udp_packets 0 ≡ s.udp_packets
    pub icmp_packets : add_64 s.icmp_packets 0 ≡ s.icmp_packets
    pub other_packets : add_64 s.other_packets 0 ≡ s.other_packets
    pub ip_packets : add_64 s.ip_packets 0 ≡ s.ip_packets

  add_64-add_64 : (a b c : ℕ) → add_64 (add_64 a b) c ≡ add_64 a (b + c)
  unfolding add_64
  add_64-add_64 a b c = omega arith

  keep : (a : ℕ) → add_64 (add_64 a 1) 0 ≡ add_64 a 1
  keep a = add_64-add_64 a 1 0 ∙ ap (add_64 a) (omega arith)

  keep_bytes : (a b : ℕ) → add_64 (add_64 a b) 0 ≡ add_64 a b
  keep_bytes a b = add_64-add_64 a b 0 ∙ ap (add_64 a) (omega arith)

  kind-HasAdded :
      (s : TrafficStats) (p : Packet) (k : Kind)
      → IsWord64 s
      → let s' : TrafficStats = record s {
        total_packets = add_64 s.total_packets 1;
        total_bytes = add_64 s.total_bytes p.pkt_len;
      } in
        HasAdded s (count_kind rte_cpu_to_be_16 ntohl s' p k).0 1 p.pkt_len (λ f. f k)
        × IsWord64 (count_kind rte_cpu_to_be_16 ntohl s' p k).0
  unfolding count_kind
  kind-HasAdded s p k v = ground (
    arith,
    keep s.total_packets,
    keep_bytes s.total_bytes p.pkt_len,
    keep s.tcp_packets,
    keep s.udp_packets,
    keep s.icmp_packets,
    keep s.other_packets,
    keep s.ip_packets,
  )

  packet-HasAdded :
      (s : TrafficStats) (p : Packet)
      → IsWord64 s
      → HasAdded s (analyze_packet rte_cpu_to_be_16 ntohl s p).0 1 p.pkt_len (one_of p)
        × IsWord64 (analyze_packet rte_cpu_to_be_16 ntohl s p).0
  unfolding analyze_packet
  packet-HasAdded s p v = kind-HasAdded s p (kind rte_cpu_to_be_16 ntohl p) v

  HasAdded-then :
      (s s' s'' : TrafficStats) (n m b c : ℕ) (f g : (Kind → ℕ) → ℕ)
      → HasAdded s s' n b f
      → HasAdded s' s'' m c g
      → HasAdded s s'' (n + m) (b + c) (λ k. f k + g k)
  HasAdded-then s s' s'' n m b c f g h k = record {
    total_packets =
        k.total_packets ∙ ap (λ x. add_64 x m) h.total_packets ∙ add_64-add_64 s.total_packets n m;
    total_bytes =
        k.total_bytes ∙ ap (λ x. add_64 x c) h.total_bytes ∙ add_64-add_64 s.total_bytes b c;
    tcp_packets =
        k.tcp_packets
        ∙ ap (λ x. add_64 x (g is_tcp)) h.tcp_packets
        ∙ add_64-add_64 s.tcp_packets (f is_tcp) (g is_tcp);
    udp_packets =
        k.udp_packets
        ∙ ap (λ x. add_64 x (g is_udp)) h.udp_packets
        ∙ add_64-add_64 s.udp_packets (f is_udp) (g is_udp);
    icmp_packets =
        k.icmp_packets
        ∙ ap (λ x. add_64 x (g is_icmp)) h.icmp_packets
        ∙ add_64-add_64 s.icmp_packets (f is_icmp) (g is_icmp);
    other_packets =
        k.other_packets
        ∙ ap (λ x. add_64 x (g is_other_ip + g is_no_ip)) h.other_packets
        ∙ add_64-add_64 s.other_packets (f is_other_ip + f is_no_ip) (g is_other_ip + g is_no_ip)
        ∙ ap (add_64 s.other_packets) (omega arith);
    ip_packets =
        k.ip_packets
        ∙ ap (λ x. add_64 x (g is_tcp + g is_udp + g is_icmp + g is_other_ip)) h.ip_packets
        ∙ add_64-add_64 s.ip_packets (f is_tcp + f is_udp + f is_icmp + f is_other_ip)
            (g is_tcp + g is_udp + g is_icmp + g is_other_ip)
        ∙ ap (add_64 s.ip_packets) (omega arith);
    eth_packets = k.eth_packets ∙ h.eth_packets;
  }

  abbrev burst_stats : TrafficStats → List Packet → TrafficStats
  burst_stats = analyze_burst rte_cpu_to_be_16 ntohl

  burst-HasAdded :
      (s : TrafficStats) (ps : List Packet)
      → IsWord64 s
      → HasAdded s (burst_stats s ps) (length ps) (bytes_of ps) (λ f. tally f ps)
  unfolding analyze_burst
  burst-HasAdded s [] v = record {
    total_packets = sym v.total_packets;
    total_bytes = sym v.total_bytes;
    tcp_packets = sym v.tcp_packets;
    udp_packets = sym v.udp_packets;
    icmp_packets = sym v.icmp_packets;
    other_packets = sym v.other_packets ∙ ap (add_64 s.other_packets) (omega arith);
    ip_packets = sym v.ip_packets ∙ ap (add_64 s.ip_packets) (omega arith);
    eth_packets = refl;
  }
  burst-HasAdded s (p ∷ ps) v =
      let s' = (analyze_packet rte_cpu_to_be_16 ntohl s p).0 in
      let (h, w) = packet-HasAdded s p v in
      subst
        (λ n.
          HasAdded s (burst_stats s' ps) n (p.pkt_len + bytes_of ps) (λ f. one_of p f + tally f ps))
        (omega arith)
        (HasAdded-then s s' (burst_stats s' ps) 1 (length ps) p.pkt_len (bytes_of ps) (one_of p)
          (λ f. tally f ps) h (burst-HasAdded s' ps w))

  burst-append :
      (s : TrafficStats) (ps qs : List Packet)
      → burst_stats s (ps ++ qs) ≡ burst_stats (burst_stats s ps) qs
  unfolding analyze_burst
  burst-append s [] qs = refl
  burst-append s (p ∷ ps) qs = burst-append (analyze_packet rte_cpu_to_be_16 ntohl s p).0 ps qs

  receive-received :
      (s : TrafficStats) (bursts : List (Bool × List Packet))
      → (receive rte_cpu_to_be_16 ntohl s bursts).0 ≡ burst_stats s (received bursts)
  unfolding receive
  receive-received s [] = unfold analyze_burst in refl
  receive-received s ((force_quit, burst) ∷ bursts) = elim (Bool-cases force_quit) [
    | inl e ↦ rw e (unfold analyze_burst in refl)
    | inr e ↦ rw e (
        receive-received (burst_stats s burst) bursts
        ∙ sym (burst-append s burst (received bursts)))
  ]

  pub receive-quit :
      (s : TrafficStats) (bursts : List (Bool × List Packet))
      → (receive rte_cpu_to_be_16 ntohl s bursts).1 ≡ has_quit bursts
  unfolding receive
  receive-quit s [] = refl
  receive-quit s ((true, burst) ∷ bursts) = refl
  receive-quit s ((false, burst) ∷ bursts) = receive-quit (burst_stats s burst) bursts

  tally-kinds :
      (ps : List Packet)
      → tally is_tcp ps
          + tally is_udp ps
          + tally is_icmp ps
          + tally is_other_ip ps
          + tally is_no_ip ps
        ≡ length ps
  tally-kinds [] = omega arith
  tally-kinds (p ∷ ps) = omega (arith, tally-kinds ps, one_kind (kind rte_cpu_to_be_16 ntohl p))

  no_stats-IsWord64 : IsWord64 no_stats
  no_stats-IsWord64 =
      unfold add_64 in
      record {
        total_packets = refl;
        total_bytes = refl;
        tcp_packets = refl;
        udp_packets = refl;
        icmp_packets = refl;
        other_packets = refl;
        ip_packets = refl;
      }

  -- From zero, the loop of `main` adds to the counters, in 64 bits, what the packets received before
  -- `force_quit` amount to: their number, their bytes, and for each protocol the packets of it, each
  -- packet of just one kind. The counter of IP has those of TCP, UDP, ICMP and of no known protocol;
  -- the one of others has the latter and those that are not IP; eth_packets stays zero.
  pub receive_lem :
      (bursts : List (Bool × List Packet))
      → let ps = received bursts in
        HasAdded no_stats
          (receive rte_cpu_to_be_16 ntohl no_stats bursts).0
          (length ps)
          (bytes_of ps)
          (λ f. tally f ps)
        × (tally is_tcp ps
              + tally is_udp ps
              + tally is_icmp ps
              + tally is_other_ip ps
              + tally is_no_ip ps
            ≡ length ps)
  receive_lem bursts =
      let ps = received bursts in
      (
        subst (λ s. HasAdded no_stats s (length ps) (bytes_of ps) (λ f. tally f ps))
            (sym (receive-received no_stats bursts)) (burst-HasAdded no_stats ps no_stats-IsWord64),
        tally-kinds ps,
      )

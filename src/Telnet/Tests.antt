-- ===== src/Telnet/Tests.antt =====
-- A request of hw11-telnet/main.c and its answer in two parts.
use otus_c_2025_3_kushko.Common.{
  ℕ, ◌≡◌, ◌≢◌, refl, List, [], ◌∷◌, ◌++◌, some, length, replicate, length-replicate, arith,
}
use otus_c_2025_3_kushko.Common.Text.{codes}
use otus_c_2025_3_kushko.Telnet.{
  connected, request, gather, skip_greeting, waits, over_the_end, printed, main,
}
use otus_c_2025_3_kushko.Telnet.Gather.{main-printed}

abbrev parts : List (List ℕ)
parts = codes "figlet /f" ∷ codes " m\r\nTEXT." ∷ []

-- More calls than the buffer has bytes.
abbrev many_calls : List (List ℕ)
many_calls = replicate 5001 (1 ∷ [])

one_call-waits : main (codes "f" ∷ codes "m" ∷ []) connected ([] ∷ (1 ∷ []) ∷ []) (some 13) ≡ waits
unfolding main request skip_greeting gather
one_call-waits = refl

main-printed_example :
    let args = codes "f" ∷ codes "m" ∷ [] in
    let sent = some (length (request (codes "f") (codes "m"))) in
    (main args connected ((codes "hello" ∷ []) ++ [] ∷ (parts ++ [] ∷ [])) sent
      ≡ printed (codes "TEXT"))
    × (main args connected ((codes "hello" ∷ []) ++ [] ∷ [] ∷ []) sent ≡ over_the_end)
    × (main args connected ((codes "hello" ∷ []) ++ [] ∷ many_calls) sent ≢ waits)
unfolding request
main-printed_example =
    main-printed (codes "f") (codes "m") (codes "hello" ∷ []) parts [] many_calls
      (codes "figlet /f m\r\n") (codes "TEXT") 46 (omega arith, tt) (omega arith, (omega arith, tt))
      refl refl (omega arith) (omega (arith, length-replicate {A = List ℕ} 5001 (1 ∷ [])))

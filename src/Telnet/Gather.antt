-- ===== src/Telnet/Gather.antt =====
-- What hw11-telnet/main.c gathers and prints of an answer.
use otus_c_2025_3_kushko.Common.{
  ℕ, ◌+◌, ◌-◌, ◌≤◌, ◌<◌, ◌≡◌, ◌≢◌, refl, sym, ap, ◌∙◌, inl, inr, Bool-cases, List, [], ◌∷◌, ◌++◌,
  append-nil, append_assoc, some, All, length, length-append, take, take-all, take-append_le,
  take-append_ge, length-take, min, drop, drop-append_ge, ltb, ◌==◌, ne→==, arith,
}
use otus_c_2025_3_kushko.Telnet.{
  buf_size, connected, request, skip_greeting, ended, gather, waits, over_the_end, printed,
  print_answer, main,
}

abbrev pub stream : List (List ℕ) → List ℕ
stream [] = []
stream (chunk ∷ chunks) = chunk ++ stream chunks

abbrev pub AreSome : List (List ℕ) → Type 0
AreSome = All (λ chunk. 0 < length chunk)

-- A part that does not fit, and all that comes after it, is cut.
take-part :
    (acc chunk rest : List ℕ)
    → length acc ≤ buf_size
    → take buf_size ((acc ++ take (buf_size - length acc) chunk) ++ rest)
      ≡ take buf_size (acc ++ (chunk ++ rest))
take-part acc chunk rest h = elim (Bool-cases (ltb (buf_size - length acc) (length chunk))) [
  | inl long ↦
      let size : length (acc ++ take (buf_size - length acc) chunk) ≡ buf_size = ground (
        arith,
        length-append acc (take (buf_size - length acc) chunk),
        length-take (buf_size - length acc) chunk,
      ) in
      take-append_le buf_size (acc ++ take (buf_size - length acc) chunk) rest (omega arith)
      ∙ take-all buf_size (acc ++ take (buf_size - length acc) chunk) (omega arith)
      ∙ ap (λ xs. acc ++ xs)
          (sym (take-append_le (buf_size - length acc) chunk rest (ground arith)))
      ∙ sym (take-append_ge buf_size acc (chunk ++ rest) h)
  | inr short ↦
      ap (λ xs. take buf_size ((acc ++ xs) ++ rest))
        (take-all (buf_size - length acc) chunk (ground arith))
      ∙ ap (take buf_size) (append_assoc acc chunk rest)
]

gather-stream :
    (chunks rest : List (List ℕ)) (acc : List ℕ)
    → AreSome chunks
    → length acc ≤ buf_size
    → gather (chunks ++ [] ∷ rest) acc ≡ ended (take buf_size (acc ++ stream chunks))
unfolding gather
gather-stream [] rest acc h k =
    let nothing : List ℕ = [] in
    let received = take (buf_size - length acc) nothing in
    elim (Bool-cases (length received == 0)) [
      | inl none_left ↦
          rw none_left
            (ap ended (sym (ap (take buf_size) (append-nil acc) ∙ take-all buf_size acc k)))
      | inr some_left ↦ absurd (ground (arith, length-take (buf_size - length acc) nothing))
    ]
gather-stream (chunk ∷ chunks) rest acc h k =
    let received = take (buf_size - length acc) chunk in
    let size : length received ≡ min (buf_size - length acc) (length chunk) =
      length-take (buf_size - length acc) chunk in
    elim (Bool-cases (length received == 0)) [
      | inl full ↦
          let all : buf_size ≤ length acc = ground (arith, h.0) in
          rw full (
            ap ended (
              sym (
                take-append_le buf_size acc (chunk ++ stream chunks) all
                ∙ take-all buf_size acc k)))
      | inr some_room ↦ rw some_room (
          gather-stream chunks rest (acc ++ received) h.1
            (ground (arith, length-append acc received))
          ∙ ap ended (take-part acc chunk (stream chunks) k))
    ]

-- More calls of `recv` than the buffer has bytes are never made: the loop has ended.
gather-ends :
    (chunks : List (List ℕ)) (acc : List ℕ)
    → length acc ≤ buf_size
    → buf_size - length acc < length chunks
    → (acc' : List ℕ) × (gather chunks acc ≡ ended acc') × (length acc' ≤ buf_size)
unfolding gather
gather-ends [] acc k h = absurd (omega arith)
gather-ends (chunk ∷ chunks) acc k h =
    let received = take (buf_size - length acc) chunk in
    let size : length received ≡ min (buf_size - length acc) (length chunk) =
      length-take (buf_size - length acc) chunk in
    elim (Bool-cases (length received == 0)) [
      | inl full ↦ rw full (acc, refl, k)
      | inr some_room ↦ rw some_room (
          gather-ends chunks (acc ++ received) (ground (arith, length-append acc received))
            (ground (arith, length-append acc received)))
    ]

skip_greeting-end :
    (greeting chunks : List (List ℕ))
    → AreSome greeting
    → skip_greeting (greeting ++ [] ∷ chunks) ≡ some chunks
unfolding skip_greeting
skip_greeting-end [] chunks h = refl
skip_greeting-end (chunk ∷ greeting) chunks h =
    ground (arith, skip_greeting-end greeting chunks h.1, h.0)

main-exchange :
    (font msg : List ℕ) (greeting chunks : List (List ℕ))
    → AreSome greeting
    → main (font ∷ msg ∷ []) connected (greeting ++ [] ∷ chunks) (some (length (request font msg)))
      ≡ print_answer (length (request font msg)) (gather chunks [])
unfolding main
main-exchange font msg greeting chunks h = rw (skip_greeting-end greeting chunks h) (ground arith)

print_answer-text :
    (skipped : ℕ) (echo text : List ℕ) (last : ℕ)
    → length echo ≡ skipped
    → print_answer skipped (ended (echo ++ (text ++ last ∷ []))) ≡ printed text
print_answer-text skipped echo text last size =
    let whole = echo ++ (text ++ last ∷ []) in
    let e : length whole ≡ skipped + length text + 1 =
      omega (arith, length-append echo (text ++ last ∷ []), length-append text (last ∷ [])) in
    let left : drop skipped whole ≡ text ++ last ∷ [] =
      drop-append_ge skipped echo (text ++ last ∷ []) (omega arith)
      ∙ ap (λ n. drop n (text ++ last ∷ [])) {x = skipped - length echo} {y = 0} (omega arith) in
    rw (ne→== (length whole) 0 (omega arith)) (
      ap printed (
        ap (λ xs. take (length whole - 1 - skipped) xs) left
        ∙ take-append_le (length whole - 1 - skipped) text (last ∷ []) (omega arith)
        ∙ take-all (length whole - 1 - skipped) text (omega arith)))

print_answer-ends : (skipped : ℕ) (acc : List ℕ) → print_answer skipped (ended acc) ≢ waits
print_answer-ends skipped [] h = cc
print_answer-ends skipped (c ∷ acc) h = ground arith

-- An answer that fits the buffer, in whatever parts it comes, after a greeting that ends: when it is
-- as long as the request, then a text, then one more byte, the program prints just that text. When
-- nothing comes, the last loop runs over the end of the buffer. And more calls of recv than the
-- buffer has bytes are never waited for.
pub main-printed :
    (font msg : List ℕ) (greeting chunks rest calls : List (List ℕ)) (echo text : List ℕ) (last : ℕ)
    → AreSome greeting
    → AreSome chunks
    → stream chunks ≡ echo ++ (text ++ last ∷ [])
    → length echo ≡ length (request font msg)
    → length (stream chunks) ≤ buf_size
    → buf_size < length calls
    → let args = font ∷ msg ∷ [] in
      let sent = some (length (request font msg)) in
      (main args connected (greeting ++ [] ∷ (chunks ++ [] ∷ rest)) sent ≡ printed text)
      × (main args connected (greeting ++ [] ∷ [] ∷ rest) sent ≡ over_the_end)
      × (main args connected (greeting ++ [] ∷ calls) sent ≢ waits)
main-printed font msg greeting chunks rest calls echo text last h k same size fits many =
    let req = request font msg in
    let all : gather (chunks ++ [] ∷ rest) [] ≡ ended (stream chunks) =
      gather-stream chunks rest [] k (omega arith)
      ∙ ap ended (take-all buf_size (stream chunks) fits) in
    let (acc, ends, bound) = gather-ends calls [] (omega arith) many in
    (
      main-exchange font msg greeting (chunks ++ [] ∷ rest) h
          ∙ ap (print_answer (length req)) (all ∙ ap ended same)
          ∙ print_answer-text (length req) echo text last size,
      main-exchange font msg greeting ([] ∷ rest) h
          ∙ ap (print_answer (length req)) (gather-stream [] rest [] tt (omega arith)),
      λ w. print_answer-ends (length req) acc (
          ap (print_answer (length req)) (sym ends)
          ∙ sym (main-exchange font msg greeting calls h)
          ∙ w),
    )

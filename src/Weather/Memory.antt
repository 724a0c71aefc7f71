-- ===== src/Weather/Memory.antt =====
-- The memory of hw02-weather/main.c over the transfers of several cities.
use otus_c_2025_3_kushko.Common.{
  ℕ, ◌+◌, ◌≡◌, refl, ap, ap₂, sym, ◌∙◌, Bool, true, false, Bool-cases, inl, inr, List, [], ◌∷◌,
  ◌++◌, append-nil, append_assoc, All, ◌≤◌, ltb, Option, none, some, length, length-append, take,
  take-all, take-append_le, length-take, ◌==◌, if◌then◌else◌, arith,
}
use otus_c_2025_3_kushko.Weather.{
  MemoryStruct, write_memory_callback, Transfer, write_parts, convert, written, city_url_size,
  url_of, show_answer, ask, Output, bad_input, curl_error, not_found, print_weather, print_cities,
}

-- What has been received.
abbrev pub received : MemoryStruct → List ℕ
received mem = take mem.size mem.memory

-- The bytes received are there, with a zero after them.
pub record IsFilled (mem : MemoryStruct) : Type 0 where
  pub room : length mem.memory ≡ mem.size + 1

-- The parts for which there was memory.
abbrev pub body : List (Bool × List ℕ) → List ℕ
body [] = []
body ((enough, contents) ∷ parts) = if enough then contents ++ body parts else body parts

write-received :
    (contents : List ℕ) (mem : MemoryStruct)
    → IsFilled mem
    → let mem' = (write_memory_callback true contents mem).0 in
      (received mem' ≡ received mem ++ contents) × IsFilled mem'
unfolding write_memory_callback
write-received contents mem v =
    let old = take mem.size mem.memory in
    let size : length old ≡ mem.size = omega (arith, length-take mem.size mem.memory, v.room) in
    (
      ap (take (mem.size + length contents)) (sym (append_assoc old contents (0 ∷ [])))
          ∙ take-append_le (mem.size + length contents) (old ++ contents) (0 ∷ [])
              (omega (arith, length-append old contents))
          ∙ take-all (mem.size + length contents) (old ++ contents)
              (omega (arith, length-append old contents)),
      record {
        room =
            omega (
              arith,
              length-append old (contents ++ 0 ∷ []),
              length-append contents (0 ∷ []),
              size,
            );
      },
    )

parts-received :
    (parts : List (Bool × List ℕ)) (mem : MemoryStruct)
    → IsFilled mem
    → (received (write_parts parts mem) ≡ received mem ++ body parts)
      × IsFilled (write_parts parts mem)
unfolding write_parts write_memory_callback
parts-received [] mem v = (sym (append-nil (received mem)), v)
parts-received ((true, contents) ∷ parts) mem v =
    let mem' = (write_memory_callback true contents mem).0 in
    let (e, w) = write-received contents mem v in
    let (e', w') = parts-received parts mem' w in
    (e' ∙ ap (λ xs. xs ++ body parts) e ∙ append_assoc (received mem) contents (body parts), w')
parts-received ((false, contents) ∷ parts) mem v = parts-received parts mem v

-- What a city writes to `city_url` fits it.
abbrev pub IsShort : List ℕ → Type 0
IsShort city = written city ≤ city_url_size

module _ {Weather : Type 0} (perform : List ℕ → Transfer) (parse : List ℕ → Option Weather) where
  -- What is received for a converted city.
  abbrev pub own : Option (List ℕ) → List ℕ
  own none = []
  own (some city_url) = if length city_url == 0 then [] else body (perform (url_of city_url)).parts

  -- What is printed of it, when `before` was received for earlier ones.
  abbrev pub printed : List ℕ → Option (List ℕ) → Output Weather
  printed before none = bad_input
  printed before (some city_url) =
      let transfer = perform (url_of city_url) in
      let answer = show_answer perform parse (parse (before ++ body transfer.parts)) in
      if length city_url == 0
      then bad_input
      else if transfer.succeeded
      then (if transfer.http_code == 404 then not_found else answer)
      else curl_error

  abbrev pub own_all : List (List ℕ) → List ℕ
  own_all [] = []
  own_all (city ∷ cities) = own (convert city) ++ own_all cities

  abbrev pub printed_all : List ℕ → List (List ℕ) → List (Output Weather)
  printed_all before [] = []
  printed_all before (city ∷ cities) =
      printed before (convert city) ∷ printed_all (before ++ own (convert city)) cities

  ask-received :
      (mem : MemoryStruct) (found : Option (List ℕ))
      → IsFilled mem
      → let (mem', output) = ask perform parse mem found in
        (received mem' ≡ received mem ++ own found)
        × (output ≡ printed (received mem) found)
        × IsFilled mem'
  ask-received mem none v = (sym (append-nil (received mem)), refl, v)
  ask-received mem (some city_url) v =
      let transfer = perform (url_of city_url) in
      let (e, w) = parts-received transfer.parts mem v in
      elim (Bool-cases (length city_url == 0)) [
        | inl empty ↦ rw empty (sym (append-nil (received mem)), refl, v)
        | inr some_city ↦ elim (Bool-cases transfer.succeeded) [
          | inl ok ↦
              rw (some_city, ok)
                (
                  e,
                  ap
                      (λ bytes.
                        if transfer.http_code == 404
                        then not_found
                        else show_answer perform parse (parse bytes))
                      e,
                  w,
                )
          | inr failed ↦ rw (some_city, failed) (e, refl, w)
        ]
      ]

  -- The memory is never emptied: after several cities, short enough for their buffer, it holds, one after the other, all that was
  -- received for each, and what is printed of a city is read from all that was received up to its own
  -- answer, those of the cities before it first.
  pub print_cities_lem :
      (mem : MemoryStruct) (cities : List (List ℕ))
      → IsFilled mem
      → All IsShort cities
      → let (mem', outputs) = print_cities perform parse mem cities in
        (received mem' ≡ received mem ++ own_all cities)
        × (outputs ≡ printed_all (received mem) cities)
        × IsFilled mem'
  unfolding print_cities print_weather
  print_cities_lem mem [] v short = (sym (append-nil (received mem)), refl, v)
  print_cities_lem mem (city ∷ cities) v short =
      let mem' = (ask perform parse mem (convert city)).0 in
      let fits : ltb city_url_size (written city) ≡ false = ground (arith, short.0) in
      let (e, o, w) = ask-received mem (convert city) v in
      let (e', o', w') = print_cities_lem mem' cities w short.1 in
      rw fits (
        e'
            ∙ ap (λ xs. xs ++ own_all cities) e
            ∙ append_assoc (received mem) (own (convert city)) (own_all cities),
        ap₂ (λ x xs. x ∷ xs) o (o' ∙ ap (λ bytes. printed_all bytes cities) e),
        w',
      )

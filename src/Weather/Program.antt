-- ===== src/Weather/Program.antt =====
-- The output of hw02-weather/main.c for several cities.
use otus_c_2025_3_kushko.Common.{
  ℕ, ◌≡◌, refl, ap, sym, ◌∙◌, true, false, List, [], ◌∷◌, ◌++◌, append-nil, append_assoc, All, some,
  length, ◌==◌,
}
use otus_c_2025_3_kushko.Common.Text.{codes}
use otus_c_2025_3_kushko.Weather.{Transfer, convert, url_of, weather}
use otus_c_2025_3_kushko.Weather.Memory.{IsShort, own, printed, printed_all, body, print_cities_lem}
use otus_c_2025_3_kushko.Weather.Report.{
  Json, weather_lines, show_output, show_outputs, chunk, main,
}

module _ {Object : Type 0} (json : Json Object) (perform : List ℕ → Transfer) where
  -- An answer comes for a city: its name can be converted and fits its buffer then, and the transfer
  -- succeeds.
  pub record IsAnswered (city : List ℕ) : Type 0 where
    pub city_url : List ℕ
    pub is_short : IsShort city
    pub converted : convert city ≡ some city_url
    pub some_text : (length city_url == 0) ≡ false
    pub succeeded : (perform (url_of city_url)).succeeded ≡ true
    pub is_found : ((perform (url_of city_url)).http_code == 404) ≡ false

  -- What is received for a city.
  abbrev pub answer : List ℕ → List ℕ
  answer city = own perform json.json_tokener_parse_ex (convert city)

  -- The parser takes a text for an object, and stops at its end whatever follows.
  abbrev pub IsWhole : List ℕ → Object → Type 0
  IsWhole text root = (rest : List ℕ) → json.json_tokener_parse_ex (text ++ rest) ≡ some root

  -- The same lines under the name of each city.
  abbrev pub repeated : List ℕ → List (List ℕ) → List ℕ
  repeated lines [] = []
  repeated lines (city ∷ cities) =
      (codes "City: " ++ city ++ 10 ∷ lines) ++ 10 ∷ repeated lines cities

  printed-weather :
      (root : Object) (before city : List ℕ)
      → json.json_tokener_parse_ex (before ++ answer city) ≡ some root
      → IsAnswered city
      → printed perform json.json_tokener_parse_ex before (convert city) ≡ weather root
  printed-weather root before city parsed h =
      let url = h.city_url in
      let own_bytes : answer city ≡ body (perform (url_of url)).parts =
        rw (h.converted, h.some_text) refl in
      rw (h.converted, h.some_text, h.succeeded, h.is_found, sym own_bytes, parsed) refl

  shows-repeated :
      (root : Object) (text lines more : List ℕ) (cities : List (List ℕ))
      → IsWhole text root
      → weather_lines json root ≡ some lines
      → All IsAnswered cities
      → show_outputs json cities
          (printed_all perform json.json_tokener_parse_ex (text ++ more) cities)
        ≡ some (repeated lines cities)
  unfolding show_outputs show_output
  shows-repeated root text lines more [] whole e h = refl
  shows-repeated root text lines more (city ∷ cities) whole e h =
      let parsed =
        ap json.json_tokener_parse_ex (append_assoc text more (answer city))
        ∙ whole (more ++ answer city) in
      rw
        (
          printed-weather root (text ++ more) city parsed h.0,
          e,
          append_assoc text more (answer city),
          shows-repeated root text lines (more ++ answer city) cities whole e h.1,
        )
        refl

  all_short : (cities : List (List ℕ)) → All IsAnswered cities → All IsShort cities
  all_short [] h = tt
  all_short (city ∷ cities) h = (h.0.is_short, all_short cities h.1)

  -- When the answer to the first city is a whole object, after which the parser stops, and an answer
  -- comes for every city, whose name fits its buffer, then the program prints for every city the weather of the first one.
  pub main-repeats :
      (byte : ℕ) (root : Object) (lines city : List ℕ) (cities : List (List ℕ))
      → IsWhole (answer city) root
      → weather_lines json root ≡ some lines
      → All IsAnswered (city ∷ cities)
      → main json byte perform (city ∷ cities) ≡ some (repeated lines (city ∷ cities))
  unfolding main show_outputs show_output
  main-repeats byte root lines city cities whole e h =
      let (_, outputs, _) =
        print_cities_lem perform json.json_tokener_parse_ex (chunk json byte) (city ∷ cities)
          (record { room = refl }) (all_short (city ∷ cities) h) in
      let parsed = ap json.json_tokener_parse_ex (sym (append-nil (answer city))) ∙ whole [] in
      let rest =
        ap
          (λ text.
            show_outputs json cities (printed_all perform json.json_tokener_parse_ex text cities))
          (sym (append-nil (answer city)))
        ∙ shows-repeated root (answer city) lines [] cities whole e h.1 in
      rw (outputs, printed-weather root [] city parsed h.0, e, rest) refl

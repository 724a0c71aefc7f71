-- ===== src/Weather/Tests.antt =====
-- Runs of hw02-weather with answers that do not depend on the city.
use otus_c_2025_3_kushko.Common.{
  ℕ, ◌+◌, ◌*◌, ◌≡◌, ◌⊎◌, refl, true, false, List, [], ◌∷◌, ◌++◌, Option, none, some, length, take,
  ◌==◌, if◌then◌else◌, arith,
}
use otus_c_2025_3_kushko.Common.Text.{codes}
use otus_c_2025_3_kushko.Weather.{MemoryStruct, Transfer, written, convert, url_of}
use otus_c_2025_3_kushko.Weather.City.{all_allowed, unescape, spaces, convert_lem}
use otus_c_2025_3_kushko.Weather.Report.{Json, weather_lines, main}
use otus_c_2025_3_kushko.Weather.Program.{IsAnswered, IsWhole, answer, repeated, main-repeats}

convert_lem_example :
    ((all_allowed (codes "New York") ≡ false) × (convert (codes "New York") ≡ none))
    ⊎ ((city_url : List ℕ) × (all_allowed (codes "New York") ≡ true)
        × (convert (codes "New York") ≡ some city_url)
        × (unescape city_url ≡ codes "New York")
        × (length city_url ≡ length (codes "New York") + 2 * spaces (codes "New York")))
convert_lem_example = convert_lem (codes "New York")

abbrev same_answer : List ℕ → Transfer
same_answer url = record {
  parts = (true, 1 ∷ []) ∷ (true, 2 ∷ []) ∷ [];
  succeeded = true;
  http_code = 200;
}

-- A library that takes the first two bytes for its answer.
abbrev first_two : List ℕ → Option (List ℕ)
first_two bytes = some (take 2 bytes)

abbrev empty : MemoryStruct
empty = record { memory = 0 ∷ []; size = 0 }

abbrev two_cities : List (List ℕ)
two_cities = codes "Oslo" ∷ codes "Rome" ∷ []

abbrev brace : List ℕ → Option (List ℕ)
brace [] = none
brace (c ∷ cs) = if c == b'{' then some (take 21 (c ∷ cs)) else none

-- A library whose objects are texts: the parser takes 21 bytes after a brace, and a field of an object
-- is the object itself.
abbrev plain_json : Json (List ℕ)
plain_json = record {
  json_tokener_parse_ex = brace;
  json_object_object_get = λ object key. object;
  json_object_array_get_first = λ object. some object;
  json_object_get_string = λ object. object;
}

-- The answer is the address after a brace.
abbrev echo : List ℕ → Transfer
echo url = record { parts = (true, b'{' ∷ url) ∷ []; succeeded = true; http_code = 200 }

oslo-IsAnswered : IsAnswered plain_json echo (codes "Oslo")
unfolding convert written
oslo-IsAnswered = record {
  city_url = codes "Oslo";
  is_short = omega arith;
  converted = refl;
  some_text = refl;
  succeeded = refl;
  is_found = refl;
}

rome-IsAnswered : IsAnswered plain_json echo (codes "Rome")
unfolding convert written
rome-IsAnswered = record {
  city_url = codes "Rome";
  is_short = omega arith;
  converted = refl;
  some_text = refl;
  succeeded = refl;
  is_found = refl;
}

abbrev oslo : List ℕ
oslo = codes "{https://wttr.in/Oslo"

abbrev oslo_lines : List ℕ
oslo_lines =
    codes "Weather description: "
    ++ oslo
    ++ codes "\nWind direction: "
    ++ oslo
    ++ codes "\nWind speed: "
    ++ oslo
    ++ codes " km/h\nTemperature: "
    ++ oslo
    ++ codes ".."
    ++ oslo
    ++ 32 ∷ 194 ∷ 176 ∷ codes "C\n"

oslo-IsWhole : IsWhole plain_json echo (answer plain_json echo (codes "Oslo")) oslo
unfolding convert url_of
oslo-IsWhole rest = refl

oslo-lines : weather_lines plain_json oslo ≡ some oslo_lines
unfolding weather_lines
oslo-lines = refl

main-repeats_example :
    main plain_json 0 echo two_cities ≡ some (repeated plain_json echo oslo_lines two_cities)
main-repeats_example =
    main-repeats plain_json echo 0 oslo oslo_lines (codes "Oslo") (codes "Rome" ∷ []) oslo-IsWhole
      oslo-lines (oslo-IsAnswered, (rome-IsAnswered, tt))

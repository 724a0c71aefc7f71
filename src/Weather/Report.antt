-- ===== src/Weather/Report.antt =====
-- What hw02-weather/main.c prints: the fields of the answer, and `main`. The functions of json-c are
-- the fields of a record.
use otus_c_2025_3_kushko.Common.{ℕ, List, [], ◌∷◌, ◌++◌, Option, none, some}
use otus_c_2025_3_kushko.Common.Text.{codes}
use otus_c_2025_3_kushko.Weather.{
  MemoryStruct, Transfer, Output, overflow, bad_input, curl_error, not_found, json_error, weather,
  print_cities,
}

infixl 5 ◌>>=◌
abbrev ◌>>=◌ : {A B : Type 0} → Option A → (A → Option B) → Option B
none >>= k = none
some a >>= k = k a

-- The functions of json-c; a pointer to an object may be null. `json_object_array_get_idx`, here at
-- the index 0, stops the program when it is not given an array: it has no value then.
pub record Json (Object : Type 0) : Type 0 where
  pub json_tokener_parse_ex : List ℕ → Option Object
  pub json_object_object_get : Option Object → List ℕ → Option Object
  pub json_object_array_get_first : Option Object → Option (Option Object)
  pub json_object_get_string : Option Object → Option (List ℕ)

-- What `%s` prints of a pointer that may be null, with glibc.
abbrev pub shown : Option (List ℕ) → List ℕ
shown none = codes "(null)"
shown (some text) = text

module _ {Object : Type 0} (json : Json Object) where
  abbrev pub field : Option Object → List ℕ → List ℕ
  field object key = shown (json.json_object_get_string (json.json_object_object_get object key))

  -- The lines about the weather; `none` when a call of json-c stops the program.
  unfoldable pub weather_lines : Object → Option (List ℕ)
  weather_lines root = do
    current_condition ←
        json.json_object_array_get_first
          (json.json_object_object_get (some root) (codes "current_condition"))
    today ←
        json.json_object_array_get_first (json.json_object_object_get (some root) (codes "weather"))
    weather_desc ←
        json.json_object_array_get_first
          (json.json_object_object_get current_condition (codes "weatherDesc"))
    some (
        codes "Weather description: "
        ++ field weather_desc (codes "value")
        ++ codes "\nWind direction: "
        ++ field current_condition (codes "winddir16Point")
        ++ codes "\nWind speed: "
        ++ field current_condition (codes "windspeedKmph")
        ++ codes " km/h\nTemperature: "
        ++ field today (codes "mintempC")
        ++ codes ".."
        ++ field today (codes "maxtempC")
        ++ 32 ∷ 194 ∷ 176 ∷ codes "C\n")

  -- What an output of `print_weather` puts on the standard output; the rest are errors. There is none
  -- after a write beyond the buffer.
  unfoldable pub show_output : List ℕ → Output Object → Option (List ℕ)
  show_output city overflow = none
  show_output city bad_input = some []
  show_output city curl_error = some []
  show_output city json_error = some []
  show_output city not_found = some (codes "City: " ++ city ++ codes " not found!\n")
  show_output city (weather root) = do
    lines ← weather_lines root
    some (codes "City: " ++ city ++ 10 ∷ lines)

  unfoldable pub show_outputs : List (List ℕ) → List (Output Object) → Option (List ℕ)
  show_outputs (city ∷ cities) (output ∷ outputs) = do
    text ← show_output city output
    rest ← show_outputs cities outputs
    some (text ++ 10 ∷ rest)
  show_outputs [] outputs = some []
  show_outputs (city ∷ cities) [] = some []

  -- The memory of `main`, of one byte that is not set.
  abbrev pub chunk : ℕ → MemoryStruct
  chunk byte = record { memory = byte ∷ []; size = 0 }

  -- `main` over its arguments, with the transfers for the addresses.
  unfoldable pub main : ℕ → (List ℕ → Transfer) → List (List ℕ) → Option (List ℕ)
  main byte perform [] = some []
  main byte perform (city ∷ cities) =
      let outputs =
        (print_cities perform json.json_tokener_parse_ex (chunk byte) (city ∷ cities)).1 in
      show_outputs (city ∷ cities) outputs

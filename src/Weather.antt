-- ===== src/Weather.antt =====
-- hw02-weather/main.c: the address that is asked for the weather of a city, and the memory that the
-- answers are gathered in. The transfers and the reading of JSON are libraries' and are arguments.
pub mod City
pub mod Memory
pub mod Report
pub mod Program
mod Tests
use otus_c_2025_3_kushko.Common.{
  ℕ, zero, suc, ◌+◌, Bool, true, false, ◌&&◌, ◌||◌, List, [], ◌∷◌, ◌++◌, Option, none, some, length,
  take, ltb, leb, ◌==◌, if◌then◌else◌,
}
use otus_c_2025_3_kushko.Common.Text.{codes}

-- struct MemoryStruct
pub record MemoryStruct : Type 0 where
  pub memory : List ℕ
  pub size : ℕ

-- The memory after a part of an answer, with its terminating zero, and the value returned; the
-- first argument is whether `realloc` succeeds.
unfoldable pub write_memory_callback : Bool → List ℕ → MemoryStruct → MemoryStruct × ℕ
write_memory_callback false contents mem = (mem, 0)
write_memory_callback true contents mem = (
  record {
    memory = take mem.size mem.memory ++ (contents ++ 0 ∷ []);
    size = mem.size + length contents;
  },
  length contents,
)

-- `isalpha` in the locale that a program starts in.
abbrev pub is_alpha : ℕ → Bool
is_alpha c = (leb b'A' c && leb c b'Z') || (leb b'a' c && leb c b'z')

-- The loop of `convert_to_city_url`; `none` when it returns at a character that is not allowed.
unfoldable pub convert : List ℕ → Option (List ℕ)
convert [] = some []
convert (c ∷ cs) = elim (convert cs) [
  | none ↦ none
  | some rest ↦
      if is_alpha c || c == 32 || c == b'-'
      then (if c == 32 then some (b'%' ∷ b'2' ∷ b'0' ∷ rest) else some (c ∷ rest))
      else none
]

-- The number of bytes that the loop, and the zero after it, write to `city_url`.
unfoldable pub written : List ℕ → ℕ
written [] = 1
written (c ∷ cs) =
    let rest = written cs in
    if is_alpha c || c == 32 || c == b'-' then (if c == 32 then 3 else 1) + rest else 0

-- The size of `city_url` in `print_weather`.
abbrev pub city_url_size : ℕ
city_url_size = 230

abbrev length_of : Option (List ℕ) → ℕ
length_of none = 0
length_of (some url) = length url

-- The length that `convert_to_city_url` returns.
unfoldable pub convert_to_city_url : List ℕ → ℕ
convert_to_city_url city = length_of (convert city)

-- `snprintf` into the 256 bytes of `url`.
unfoldable pub url_of : List ℕ → List ℕ
url_of city_url = take 255 (codes "https://wttr.in/" ++ (city_url ++ codes "?format=j1"))

-- A transfer by libcurl: the parts of the answer, each with the outcome of `realloc`; whether it
-- succeeded; and the code of the answer.
pub record Transfer : Type 0 where
  pub parts : List (Bool × List ℕ)
  pub succeeded : Bool
  pub http_code : ℕ

unfoldable pub write_parts : List (Bool × List ℕ) → MemoryStruct → MemoryStruct
write_parts [] mem = mem
write_parts ((enough, contents) ∷ parts) mem =
    write_parts parts (write_memory_callback enough contents mem).0

-- What is printed of a city; `Weather` is what is taken out of the JSON, and `overflow` is a write
-- beyond `city_url`, after which the model does not go on.
pub data Output (Weather : Type 0) : Type 0 where
  overflow : Output Weather
  bad_input : Output Weather
  curl_error : Output Weather
  not_found : Output Weather
  json_error : Output Weather
  weather : Weather → Output Weather

module _ {Weather : Type 0} (perform : List ℕ → Transfer) (parse : List ℕ → Option Weather) where
  abbrev pub show_answer : Option Weather → Output Weather
  show_answer none = json_error
  show_answer (some found) = weather found

  abbrev pub ask : MemoryStruct → Option (List ℕ) → MemoryStruct × Output Weather
  ask mem none = (mem, bad_input)
  ask mem (some city_url) =
      let transfer = perform (url_of city_url) in
      let mem' = write_parts transfer.parts mem in
      let answer = show_answer (parse (take mem'.size mem'.memory)) in
      if length city_url == 0
      then (mem, bad_input)
      else if transfer.succeeded
      then (mem', if transfer.http_code == 404 then not_found else answer)
      else (mem', curl_error)

  unfoldable pub print_weather : MemoryStruct → List ℕ → MemoryStruct × Output Weather
  print_weather mem city =
      if ltb city_url_size (written city) then (mem, overflow) else ask mem (convert city)

  -- The loop of `main` over its arguments.
  unfoldable pub print_cities : MemoryStruct → List (List ℕ) → MemoryStruct × List (Output Weather)
  print_cities mem [] = (mem, [])
  print_cities mem (city ∷ cities) =
      let (mem', output) = print_weather mem city in
      let (mem'', outputs) = print_cities mem' cities in
      if ltb city_url_size (written city) then (mem', output ∷ []) else (mem'', output ∷ outputs)

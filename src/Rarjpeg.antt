-- ===== src/Rarjpeg.antt =====
-- hw01-rarjpeg/main.c: the names of the files of an archive that follows a picture. A file is the
-- list of its bytes that are not read yet.
pub mod Entries
mod Tests
use otus_c_2025_3_kushko.Common.{
  ℕ, zero, suc, ◌+◌, ◌*◌, Bool, true, false, ◌&&◌, List, [], ◌∷◌, Option, none, some, length, take,
  drop, get_or, leb, ◌==◌, if◌then◌else◌,
}
use otus_c_2025_3_kushko.Common.Text.{c_string}

-- Whether the file starts as a picture does, and what is left of it.
unfoldable pub is_jpeg : List ℕ → Bool × List ℕ
is_jpeg [] = (false, [])
is_jpeg (a ∷ []) = (false, [])
is_jpeg (a ∷ b ∷ rest) = (a == 0xFF && b == 0xD8, rest)

-- `fread` of a name of `n` bytes; an item of no bytes counts as none.
unfoldable pub read_name : ℕ → List ℕ → Option (List ℕ) × List ℕ
read_name n bytes =
    if n == 0
    then (none, bytes)
    else if leb n (length bytes)
    then (some (c_string (take n bytes)), drop n bytes)
    else (none, [])

-- `fread` of the length, the step over two bytes, and the name.
unfoldable pub read_length : List ℕ → Option (List ℕ) × List ℕ
read_length [] = (none, [])
read_length (a ∷ []) = (none, [])
read_length (a ∷ b ∷ rest) = read_name (a + 256 * b) (drop 2 rest)

-- What is printed of the header whose signature has been read, and its first byte; and what is left.
unfoldable pub read_header : List ℕ → Option (List ℕ) × List ℕ
read_header bytes = read_length (drop 21 bytes)

-- What is printed of a file: each header gives its name, or nothing.
pub data Report : Type 0 where
  cannot_open : Report
  not_jpeg : Report
  no_zip : Report
  zip : List (Option (List ℕ)) → Report

-- The messages of `print_zip_content`, with the headers that it met.
unfoldable pub summary : List (Option (List ℕ)) → Report
summary [] = no_zip
summary (name ∷ names) = zip (name ∷ names)

-- `beyond` is what the source reads after the end of `lfh_signature`.
module _ (beyond : ℕ → ℕ) where
  unfoldable pub lfh_signature : ℕ → ℕ
  lfh_signature i = get_or (0x50 ∷ 0x4B ∷ 3 ∷ 4 ∷ []) i (beyond i)

  -- The loop of `print_zip_content` on fuel, with the counter of the signature.
  unfoldable pub search : ℕ → ℕ → List ℕ → List (Option (List ℕ))
  search zero counter bytes = []
  search (suc fuel) counter [] = []
  search (suc fuel) counter (ch ∷ bytes) =
      let (name, rest) = if counter == 4 then read_header bytes else (none, bytes) in
      let next = if ch == lfh_signature counter then counter + 1 else 0 in
      let later = search fuel next rest in if counter == 4 then name ∷ later else later

  -- Each round reads a byte, so that the length is fuel enough.
  unfoldable pub print_zip_content : List ℕ → Report
  print_zip_content bytes = summary (search (length bytes) 0 bytes)

  -- One file of `main`; `none` when it cannot be opened.
  unfoldable pub report : Option (List ℕ) → Report
  report none = cannot_open
  report (some bytes) =
      let (jpeg, rest) = is_jpeg bytes in if jpeg then print_zip_content rest else not_jpeg

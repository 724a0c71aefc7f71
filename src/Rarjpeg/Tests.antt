-- ===== src/Rarjpeg/Tests.antt =====
-- A run of hw01-rarjpeg on a picture of four bytes with two files after it.
use otus_c_2025_3_kushko.Common.{ℕ, ◌≡◌, refl, List, [], ◌∷◌, ◌++◌, some, replicate, length, arith}
use otus_c_2025_3_kushko.Rarjpeg.{report, zip}
use otus_c_2025_3_kushko.Rarjpeg.Entries.{Entry, IsEntry, write_entries, report-write_entries}

abbrev entry : List ℕ → Entry
entry name = record {
  version = 20;
  fields = replicate 21 0;
  low = length name;
  high = 0;
  extra_low = 0;
  extra_high = 0;
  name = name;
  content = 0x50 ∷ 0x4B ∷ 2 ∷ [];
}

abbrev never : ℕ → ℕ
never i = 256

one_file : IsEntry never (entry (b'a' ∷ b'b' ∷ []))
one_file = record {
  twenty_one = refl;
  long = refl;
  some_name = omega arith;
  text = omega arith;
  quiet = refl;
  apart = omega arith;
}

other_file : IsEntry never (entry (b'c' ∷ []))
other_file = record {
  twenty_one = refl;
  long = refl;
  some_name = omega arith;
  text = omega arith;
  quiet = refl;
  apart = omega arith;
}

report-write_entries_example :
    report never (
      some (
        0xFF
        ∷ 0xD8
        ∷ ((0x50 ∷ 7 ∷ []) ++ write_entries (entry (b'a' ∷ b'b' ∷ []) ∷ entry (b'c' ∷ []) ∷ []))))
    ≡ zip (some (b'a' ∷ b'b' ∷ []) ∷ some (b'c' ∷ []) ∷ [])
report-write_entries_example =
    report-write_entries never (0x50 ∷ 7 ∷ []) (entry (b'a' ∷ b'b' ∷ [])) (entry (b'c' ∷ []) ∷ [])
      refl one_file (other_file, tt)

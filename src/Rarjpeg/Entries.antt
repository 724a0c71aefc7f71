-- ===== src/Rarjpeg/Entries.antt =====
-- What hw01-rarjpeg/main.c prints of a picture with an archive after it.
use otus_c_2025_3_kushko.Common.{
  ℕ, zero, suc, ◌+◌, ◌*◌, ◌≤◌, ◌<◌, ◌≡◌, ◌≢◌, refl, subst, ap, sym, ◌∙◌, Bool, true, false, not,
  ◌&&◌, ◌==◌, if◌then◌else◌, Bool-cases, inl, inr, List, [], ◌∷◌, ◌++◌, map, Option, some, length,
  take, drop, All, length-append, take-append_le, take-all, arith,
}
use otus_c_2025_3_kushko.Common.Text.{c_string, c_string-text}
use otus_c_2025_3_kushko.Rarjpeg.{
  is_jpeg, read_name, read_length, read_header, zip, lfh_signature, search, print_zip_content,
  report, summary,
}

-- A local file header, with its name and the data after it.
pub record Entry : Type 0 where
  pub version : ℕ
  pub fields : List ℕ
  pub low : ℕ
  pub high : ℕ
  pub extra_low : ℕ
  pub extra_high : ℕ
  pub name : List ℕ
  pub content : List ℕ

-- The bytes of some entries, one after the other.
unfoldable pub write_entries : List Entry → List ℕ
write_entries [] = []
write_entries (e ∷ es) =
    0x50
    ∷ 0x4B
    ∷ 3
    ∷ 4
    ∷ e.version
    ∷ (e.fields
        ++ e.low
          ∷ e.high
          ∷ e.extra_low
          ∷ e.extra_high
          ∷ (e.name ++ (e.content ++ write_entries es)))

-- The bytes of a signature.
abbrev signature : ℕ → ℕ
signature zero = 0x50
signature (suc zero) = 0x4B
signature (suc (suc zero)) = 3
signature (suc (suc (suc i))) = 4

-- A count of the bytes of a signature, which starts anew after a byte that does not fit, even when
-- that byte is the first of a signature, and begins at `k`: it meets no whole signature, and is at 0
-- at the end.
abbrev pub is_quiet : ℕ → List ℕ → Bool
is_quiet k [] = k == 0
is_quiet k (c ∷ cs) = elim (c == signature k) [
  | true ↦ not (k == 3) && is_quiet (k + 1) cs
  | false ↦ is_quiet 0 cs
]

-- An entry that the program can read: the fields of fixed length have it, the name is as long as the
-- header says, without a zero and not empty, and the data is quiet; the byte after the signature is
-- not the one that the program compares it with.
pub record IsEntry (beyond : ℕ → ℕ) (e : Entry) : Type 0 where
  pub twenty_one : length e.fields ≡ 21
  pub long : e.low + 256 * e.high ≡ length e.name
  pub some_name : 0 < length e.name
  pub text : All (λ c. c ≢ 0) e.name
  pub quiet : is_quiet 0 e.content ≡ true
  pub apart : e.version ≢ beyond 4

drop-all_of : (n : ℕ) (xs ys : List ℕ) → length xs ≡ n → drop n (xs ++ ys) ≡ ys
drop-all_of zero [] ys h = refl
drop-all_of zero (x ∷ xs) ys h = absurd (omega arith)
drop-all_of (suc n) [] ys h = absurd (omega arith)
drop-all_of (suc n) (x ∷ xs) ys h = drop-all_of n xs ys (omega arith)

take-all_of : (n : ℕ) (xs ys : List ℕ) → length xs ≡ n → take n (xs ++ ys) ≡ xs
take-all_of n xs ys h = take-append_le n xs ys (omega arith) ∙ take-all n xs (omega arith)

read_name-text :
    (n : ℕ) (name rest : List ℕ)
    → n ≡ length name
    → 0 < length name
    → All (λ c. c ≢ 0) name
    → read_name n (name ++ rest) ≡ (some name, rest)
unfolding read_name
read_name-text n name rest e h text = ground (
  arith,
  length-append name rest,
  ap c_string (take-all_of n name rest (sym e)) ∙ c_string-text name text,
  drop-all_of n name rest (sym e),
)

module _ (beyond : ℕ → ℕ) where
  -- With enough fuel the search of some bytes gives these names.
  abbrev Gives : List ℕ → List (Option (List ℕ)) → Type 0
  Gives bytes names = (fuel : ℕ) → length bytes ≤ fuel → search beyond fuel 0 bytes ≡ names

  lfh_signature-byte : (k : ℕ) → k < 4 → lfh_signature beyond k ≡ signature k
  unfolding lfh_signature
  lfh_signature-byte zero h = refl
  lfh_signature-byte (suc zero) h = refl
  lfh_signature-byte (suc (suc zero)) h = refl
  lfh_signature-byte (suc (suc (suc zero))) h = refl
  lfh_signature-byte (suc (suc (suc (suc k)))) h = absurd (omega arith)

  search-byte :
      (fuel k c : ℕ) (bytes : List ℕ)
      → k < 4
      → search beyond (suc fuel) k (c ∷ bytes)
        ≡ search beyond fuel (if c == signature k then k + 1 else 0) bytes
  unfolding search
  search-byte fuel k c bytes h = ground (arith, lfh_signature-byte k h)

  search-quiet :
      (k : ℕ) (quiet bytes : List ℕ) (names : List (Option (List ℕ))) (fuel : ℕ)
      → k < 4
      → is_quiet k quiet ≡ true
      → Gives bytes names
      → length (quiet ++ bytes) ≤ fuel
      → search beyond fuel k (quiet ++ bytes) ≡ names
  search-quiet k [] bytes names fuel small h g l =
      let start : k ≡ 0 = ground arith in rw start (g fuel l)
  search-quiet k (c ∷ cs) bytes names zero small h g l = absurd (omega arith)
  search-quiet k (c ∷ cs) bytes names (suc fuel) small h g l =
      let branch = λ (b : Bool).
        (elim b [ true ↦ not (k == 3) && is_quiet (k + 1) cs | false ↦ is_quiet 0 cs ]) ≡ true in
      search-byte fuel k c (cs ++ bytes) small ∙ elim (Bool-cases (c == signature k)) [
        | inl e ↦
            let more : (not (k == 3) && is_quiet (k + 1) cs) ≡ true = subst branch e h in
            let (below, later) : (k + 1 < 4) × (is_quiet (k + 1) cs ≡ true) = ground arith in
            rw e (search-quiet (k + 1) cs bytes names fuel below later g (omega arith))
        | inr e ↦
            rw e
              (search-quiet 0 cs bytes names fuel (omega arith) (subst branch e h) g (omega arith))
      ]

  quiet-Gives :
      (quiet bytes : List ℕ) (names : List (Option (List ℕ)))
      → is_quiet 0 quiet ≡ true
      → Gives bytes names
      → Gives (quiet ++ bytes) names
  quiet-Gives quiet bytes names h g fuel l =
      search-quiet 0 quiet bytes names fuel (omega arith) h g l

  -- The header of an entry, and what the program reads of it.
  header-read :
      (e : Entry) (bytes : List ℕ)
      → IsEntry beyond e
      → read_header (e.fields ++ e.low ∷ e.high ∷ e.extra_low ∷ e.extra_high ∷ (e.name ++ bytes))
        ≡ (some e.name, bytes)
  unfolding read_header read_length
  header-read e bytes v =
      let rest = e.low ∷ e.high ∷ e.extra_low ∷ e.extra_high ∷ (e.name ++ bytes) in
      rw (drop-all_of 21 e.fields rest v.twenty_one)
        (read_name-text (e.low + 256 * e.high) e.name bytes v.long v.some_name v.text)

  signature-step :
      (fuel version : ℕ) (bytes : List ℕ)
      → version ≢ beyond 4
      → search beyond (suc (suc (suc (suc (suc fuel))))) 0 (0x50 ∷ 0x4B ∷ 3 ∷ 4 ∷ version ∷ bytes)
        ≡ (read_header bytes).0 ∷ search beyond fuel 0 (read_header bytes).1
  unfolding search lfh_signature
  signature-step fuel version bytes h = ground arith

  entries-Gives :
      (es : List Entry)
      → All (IsEntry beyond) es
      → Gives (write_entries es) (map (λ (e : Entry). some e.name) es)
  unfolding write_entries
  entries-Gives [] v zero l = unfold search in refl
  entries-Gives [] v (suc fuel) l = unfold search in refl
  entries-Gives (e ∷ es) v (suc (suc (suc (suc (suc fuel))))) l =
      let later = e.content ++ write_entries es in
      let rest = e.low ∷ e.high ∷ e.extra_low ∷ e.extra_high ∷ (e.name ++ later) in
      signature-step fuel e.version (e.fields ++ rest) v.0.apart
      ∙ ap (λ (p : Option (List ℕ) × List ℕ). p.0 ∷ search beyond fuel 0 p.1)
          (header-read e later v.0)
      ∙ ap (λ names. some e.name ∷ names)
          (quiet-Gives e.content (write_entries es) (map (λ (f : Entry). some f.name) es) v.0.quiet
            (entries-Gives es v.1) fuel
            (omega (arith, length-append e.fields rest, length-append e.name later)))
  entries-Gives (e ∷ es) v zero l = absurd (omega arith)
  entries-Gives (e ∷ es) v (suc zero) l = absurd (omega arith)
  entries-Gives (e ∷ es) v (suc (suc zero)) l = absurd (omega arith)
  entries-Gives (e ∷ es) v (suc (suc (suc zero))) l = absurd (omega arith)
  entries-Gives (e ∷ es) v (suc (suc (suc (suc zero)))) l = absurd (omega arith)

  -- Of a picture that is quiet, followed by the entries of an archive that the program can read, at
  -- least one, it prints the names of these entries, each once and in order. Quiet is what the count
  -- of the bytes of a signature makes it: no whole signature is met, and none has begun at the end, so
  -- that a picture whose last byte is 0x50 is not. The data of the entries is quiet too, their names
  -- have at least one byte and no zero.
  pub report-write_entries :
      (picture : List ℕ) (e : Entry) (es : List Entry)
      → is_quiet 0 picture ≡ true
      → IsEntry beyond e
      → All (IsEntry beyond) es
      → report beyond (some (0xFF ∷ 0xD8 ∷ (picture ++ write_entries (e ∷ es))))
        ≡ zip (some e.name ∷ map (λ (f : Entry). some f.name) es)
  unfolding report is_jpeg print_zip_content summary
  report-write_entries picture e es h v vs =
      let bytes = picture ++ write_entries (e ∷ es) in
      let found =
        quiet-Gives picture (write_entries (e ∷ es)) (map (λ (f : Entry). some f.name) (e ∷ es)) h
          (entries-Gives (e ∷ es) (v, vs)) (length bytes) (omega arith) in
      ap summary found

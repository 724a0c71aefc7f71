-- ===== src/Weather/City.antt =====
-- The address of a city in hw02-weather/main.c.
use otus_c_2025_3_kushko.Common.{
  ℕ, ◌+◌, ◌*◌, ◌≤◌, ◌≡◌, refl, ap, ◌∙◌, Bool, true, false, ◌&&◌, ◌||◌, Bool-cases, ◌⊎◌, inl, inr,
  List, [], ◌∷◌, ◌++◌, none, some, length, length-append, take-all, ◌==◌, if◌then◌else◌, arith,
}
use otus_c_2025_3_kushko.Common.Text.{codes}
use otus_c_2025_3_kushko.Weather.{is_alpha, convert, url_of}

-- A text with each "%20" read as a space.
unfoldable pub unescape : List ℕ → List ℕ
unescape [] = []
unescape (c ∷ []) = c ∷ []
unescape (c ∷ d ∷ []) = c ∷ d ∷ []
unescape (c ∷ d ∷ e ∷ cs) =
    let escaped = unescape cs in
    let plain = unescape (d ∷ e ∷ cs) in
    if c == b'%' && d == b'2' && e == b'0' then 32 ∷ escaped else c ∷ plain

-- A character that is not '%' is read as itself.
unescape-plain : (c : ℕ) (cs : List ℕ) → c == b'%' ≡ false → unescape (c ∷ cs) ≡ c ∷ unescape cs
unfolding unescape
unescape-plain c [] h = refl
unescape-plain c (d ∷ []) h = refl
unescape-plain c (d ∷ e ∷ cs) h = rw h refl

abbrev pub is_allowed : ℕ → Bool
is_allowed c = is_alpha c || c == 32 || c == b'-'

abbrev pub all_allowed : List ℕ → Bool
all_allowed [] = true
all_allowed (c ∷ cs) = is_allowed c && all_allowed cs

abbrev pub spaces : List ℕ → ℕ
spaces [] = 0
spaces (c ∷ cs) = (if c == 32 then 1 else 0) + spaces cs

-- A city is converted just when its characters are letters, spaces and hyphens; reading "%20" as a
-- space gives the city back, and each space makes the text longer by two.
pub convert_lem :
    (city : List ℕ)
    → ((all_allowed city ≡ false) × (convert city ≡ none))
      ⊎ ((city_url : List ℕ) × (all_allowed city ≡ true)
          × (convert city ≡ some city_url)
          × (unescape city_url ≡ city)
          × (length city_url ≡ length city + 2 * spaces city))
unfolding convert
convert_lem [] = inr ([], refl, refl, unfold unescape in refl, refl)
convert_lem (c ∷ cs) = elim (convert_lem cs) [
  | inl (bad, e) ↦ inl (ground arith, rw e refl)
  | inr (rest, good, e, back, size) ↦ elim (Bool-cases (c == 32)) [
    | inl space ↦ inr (
      b'%' ∷ b'2' ∷ b'0' ∷ rest,
      ground arith,
      rw (e, space) (ground arith),
      unfold unescape in ground (arith, back),
      rw space (omega (arith, size)),
    )
    | inr other ↦ elim (Bool-cases (is_allowed c)) [
      | inl allowed ↦ inr (
        c ∷ rest,
        ground arith,
        rw e (ground arith),
        unescape-plain c rest (ground arith) ∙ ap (λ xs. c ∷ xs) back,
        rw other (omega (arith, size)),
      )
      | inr refused ↦ inl (ground arith, rw e (ground arith))
    ]
  ]
]

-- A converted city that fits its buffer of 230 bytes gives a whole address: the buffer of 256 bytes
-- is just long enough.
url_of-whole :
    (city_url : List ℕ)
    → length city_url + 1 ≤ 230
    → url_of city_url ≡ codes "https://wttr.in/" ++ (city_url ++ codes "?format=j1")
unfolding url_of
url_of-whole city_url h =
    take-all 255 (codes "https://wttr.in/" ++ (city_url ++ codes "?format=j1"))
      (omega (arith, length-append city_url (codes "?format=j1")))

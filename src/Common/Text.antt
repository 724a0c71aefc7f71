-- ===== src/Common/Text.antt =====
-- Texts as the C library sees them: lists of character codes.
use Prim.Native.Char.{code}
use Prim.Native.String.{String}
use otus_c_2025_3_kushko.Common.{
  ℕ, ◌<◌, ◌≡◌, ◌≢◌, refl, inl, inr, Bool, true, false, ◌&&◌, Bool-cases, List, [], ◌∷◌, ◌++◌,
  Option, none, some, All, length, ◌==◌, if◌then◌else◌, arith,
}

-- The codes of a text of the source.
abbrev pub codes : String → List ℕ
codes String.[] = []
codes (String.◌∷◌ c s) = code c ∷ codes s

-- `strcmp` of two texts is zero.
abbrev pub same_text : List ℕ → List ℕ → Bool
same_text [] [] = true
same_text [] (d ∷ ds) = false
same_text (c ∷ cs) [] = false
same_text (c ∷ cs) (d ∷ ds) = c == d && same_text cs ds

-- A buffer up to its terminating zero.
unfoldable pub c_string : List ℕ → List ℕ
c_string [] = []
c_string (c ∷ cs) = if c == 0 then [] else c ∷ c_string cs

pub c_string-text : (cs : List ℕ) → All (λ c. c ≢ 0) cs → c_string cs ≡ cs
unfolding c_string
c_string-text [] h = refl
c_string-text (c ∷ cs) h = ground (arith, c_string-text cs h.1, h.0)

pub c_string-append :
    (cs rest : List ℕ) → All (λ c. c ≢ 0) cs → c_string (cs ++ rest) ≡ cs ++ c_string rest
unfolding c_string
c_string-append [] rest h = refl
c_string-append (c ∷ cs) rest h = ground (arith, c_string-append cs rest h.1, h.0)

abbrev starts_with : List ℕ → List ℕ → Bool
starts_with s [] = true
starts_with [] (c ∷ cs) = false
starts_with (d ∷ ds) (c ∷ cs) = d == c && starts_with ds cs

-- Whether `strstr` finds `part`, which is not empty.
unfoldable pub strstr : List ℕ → List ℕ → Bool
strstr [] part = false
strstr (c ∷ cs) part = if starts_with (c ∷ cs) part then true else strstr cs part

-- The characters before the first `delim`, and what follows that one.
unfoldable pub before : ℕ → List ℕ → List ℕ × List ℕ
before delim [] = ([], [])
before delim (c ∷ cs) =
    let (token, rest) = before delim cs in if c == delim then ([], cs) else (c ∷ token, rest)

-- `strtok` with one delimiter: the next token, and what is left of the text after it.
unfoldable pub strtok : ℕ → List ℕ → Option (List ℕ × List ℕ)
unfolding before
strtok delim [] = none
strtok delim (c ∷ cs) =
    let later = strtok delim cs in if c == delim then later else some (before delim (c ∷ cs))

before-token :
    (delim : ℕ) (token rest : List ℕ)
    → All (λ c. c ≢ delim) token
    → before delim (token ++ delim ∷ rest) ≡ (token, rest)
unfolding before
before-token delim [] rest h = ground arith
before-token delim (c ∷ cs) rest h = ground (arith, before-token delim cs rest h.1, h.0)

before-last :
    (delim : ℕ) (token : List ℕ) → All (λ c. c ≢ delim) token → before delim token ≡ (token, [])
unfolding before
before-last delim [] h = refl
before-last delim (c ∷ cs) h = ground (arith, before-last delim cs h.1, h.0)

pub strtok-token :
    (delim : ℕ) (token rest : List ℕ)
    → All (λ c. c ≢ delim) token
    → 0 < length token
    → strtok delim (token ++ delim ∷ rest) ≡ some (token, rest)
unfolding strtok
strtok-token delim [] rest h k = absurd (omega arith)
strtok-token delim (c ∷ cs) rest h k = ground (arith, before-token delim (c ∷ cs) rest h, h.0)

pub strtok-last :
    (delim : ℕ) (token : List ℕ)
    → All (λ c. c ≢ delim) token
    → 0 < length token
    → strtok delim token ≡ some (token, [])
unfolding strtok
strtok-last delim [] h k = absurd (omega arith)
strtok-last delim (c ∷ cs) h k = ground (arith, before-last delim (c ∷ cs) h, h.0)

pub strtok-skip : (delim : ℕ) (rest : List ℕ) → strtok delim (delim ∷ rest) ≡ strtok delim rest
unfolding strtok
strtok-skip delim rest = ground arith

starts_with-append : (part rest : List ℕ) → starts_with (part ++ rest) part ≡ true
starts_with-append [] rest = refl
starts_with-append (c ∷ cs) rest = ground (arith, starts_with-append cs rest)

-- `strstr` finds a part wherever it stands.
pub strstr-middle :
    (front part rest : List ℕ) → 0 < length part → strstr (front ++ (part ++ rest)) part ≡ true
unfolding strstr
strstr-middle [] [] rest h = absurd (omega arith)
strstr-middle [] (c ∷ cs) rest h = rw (starts_with-append (c ∷ cs) rest) refl
strstr-middle (d ∷ ds) part rest h =
    elim (Bool-cases (starts_with (d ∷ ds ++ (part ++ rest)) part)) [
      | inl e ↦ rw e refl
      | inr e ↦ rw e (strstr-middle ds part rest h)
    ]

-- ===== src/Common/Decimal.antt =====
-- Decimal numbers as the C library prints and reads them: `%d`, `%zu` and `atoi`.
use otus_c_2025_3_kushko.Common.Int.{ℤ, pos, negsuc}
use otus_c_2025_3_kushko.Common.{
  ℕ, zero, suc, ◌+◌, ◌-◌, ◌*◌, ◌/◌, ◌%◌, ◌≤◌, ◌<◌, ◌≡◌, ap, sym, append-nil, ◌∙◌, inl, inr, Bool,
  true, ◌&&◌, ◌||◌, List, [], ◌∷◌, ◌++◌, append_assoc, arith, All, length, length-append, ltb, leb,
  ◌==◌, if◌then◌else◌, Bool-cases,
}

-- The digits of `n`, on fuel; `n + 1` rounds are enough.
show_on : ℕ → ℕ → List ℕ
show_on zero n = []
show_on (suc f) n =
    let front = show_on f (n / 10) in
    if ltb n 10 then (48 + n) ∷ [] else front ++ (48 + n % 10) ∷ []

unfoldable pub show_nat : ℕ → List ℕ
unfolding show_on
show_nat n = show_on (suc n) n

-- `%d`
unfoldable pub show_int : ℤ → List ℕ
unfolding show_nat
show_int (pos n) = show_nat n
show_int (negsuc n) = b'-' ∷ show_nat (suc n)

abbrev pub is_digit : ℕ → Bool
is_digit c = leb b'0' c && leb c b'9'

-- The value of the digits that stand first, added to what was read.
unfoldable pub read_digits : ℕ → List ℕ → ℕ
read_digits acc [] = acc
read_digits acc (c ∷ cs) = if is_digit c then read_digits (acc * 10 + (c - 48)) cs else acc

abbrev pub is_space : ℕ → Bool
is_space c = c == 32 || (leb 9 c && leb c 13)

abbrev negate : ℕ → ℤ
negate zero = pos 0
negate (suc n) = negsuc n

-- `atoi`, for values that fit an `int`.
unfoldable pub atoi : List ℕ → ℤ
unfolding read_digits
atoi [] = pos 0
atoi (c ∷ cs) =
    let rest = atoi cs in
    if is_space c
    then rest
    else if c == b'-'
    then negate (read_digits 0 cs)
    else if c == b'+'
    then pos (read_digits 0 cs)
    else pos (read_digits 0 (c ∷ cs))

read_digits-digit :
    (acc d : ℕ) (rest : List ℕ)
    → d < 10
    → read_digits acc ((48 + d) ∷ rest) ≡ read_digits (acc * 10 + d) rest
unfolding read_digits
read_digits-digit acc d rest h =
    let e : 48 + d - 48 ≡ d = omega arith in
    let t : is_digit (48 + d) ≡ true = ground arith in rw (t, e)

-- Enough fuel prints every digit: read back, they are the number.
show_on-read :
    (f n : ℕ) (rest : List ℕ) → n < f → read_digits 0 (show_on f n ++ rest) ≡ read_digits n rest
unfolding show_on
show_on-read zero n rest h = absurd (omega arith)
show_on-read (suc f) n rest h = elim (Bool-cases (ltb n 10)) [
  | inl small ↦ rw small (
      read_digits-digit 0 n rest (ground arith)
      ∙ ap (λ k. read_digits k rest) {x = 0 * 10 + n} (omega arith))
  | inr big ↦ rw big (
      ap (λ l. read_digits 0 l) (append_assoc (show_on f (n / 10)) ((48 + n % 10) ∷ []) rest)
      ∙ show_on-read f (n / 10) ((48 + n % 10) ∷ rest) (ground arith)
      ∙ read_digits-digit (n / 10) (n % 10) rest (omega arith)
      ∙ ap (λ k. read_digits k rest) {x = n / 10 * 10 + n % 10} (omega arith))
]

pub show_nat-read :
    (n : ℕ) (rest : List ℕ) → read_digits 0 (show_nat n ++ rest) ≡ read_digits n rest
unfolding show_nat
show_nat-read n rest = show_on-read (suc n) n rest (omega arith)

-- A text of digits, with one at least.
pub record IsDigits (text : List ℕ) : Type 0 where
  pub digits : All (λ c. is_digit c ≡ true) text
  pub some_digit : 0 < length text

All-append_one : (P : ℕ → Type 0) (xs : List ℕ) (x : ℕ) → All P xs → P x → All P (xs ++ x ∷ [])
All-append_one P [] x h k = (k, tt)
All-append_one P (y ∷ xs) x h k = (h.0, All-append_one P xs x h.1 k)

show_on-IsDigits : (f n : ℕ) → n < f → IsDigits (show_on f n)
unfolding show_on
show_on-IsDigits zero n h = absurd (omega arith)
show_on-IsDigits (suc f) n h = elim (Bool-cases (ltb n 10)) [
  | inl small ↦ rw small record { digits = (ground arith, tt); some_digit = omega arith }
  | inr big ↦
      let v = show_on-IsDigits f (n / 10) (ground arith) in
      rw big record {
        digits =
            All-append_one (λ c. is_digit c ≡ true) (show_on f (n / 10)) (48 + n % 10) v.digits
              (ground arith);
        some_digit = omega (arith, length-append (show_on f (n / 10)) ((48 + n % 10) ∷ []));
      }
]

pub show_nat-IsDigits : (n : ℕ) → IsDigits (show_nat n)
unfolding show_nat
show_nat-IsDigits n = show_on-IsDigits (suc n) n (omega arith)

atoi-digit :
    (c : ℕ) (cs : List ℕ) → is_digit c ≡ true → atoi (c ∷ cs) ≡ pos (read_digits 0 (c ∷ cs))
unfolding atoi
atoi-digit c cs h = ground arith

atoi-digits :
    (text rest : List ℕ) → IsDigits text → atoi (text ++ rest) ≡ pos (read_digits 0 (text ++ rest))
atoi-digits [] rest v = absurd (omega (arith, v.some_digit))
atoi-digits (c ∷ cs) rest v = atoi-digit c (cs ++ rest) v.digits.0

-- `atoi` reads back what `%d` prints of a number, with more text after it or not.
pub atoi-show_nat : (n : ℕ) (rest : List ℕ) → atoi (show_nat n ++ rest) ≡ pos (read_digits n rest)
atoi-show_nat n rest =
    atoi-digits (show_nat n) rest (show_nat-IsDigits n) ∙ ap pos (show_nat-read n rest)

pub atoi-show_nat_end : (n : ℕ) → atoi (show_nat n) ≡ pos n
unfolding read_digits
atoi-show_nat_end n = ap atoi (sym (append-nil (show_nat n))) ∙ atoi-show_nat n []

-- The same before the end of a line.
pub atoi-show_nat_line : (n : ℕ) → atoi (show_nat n ++ 10 ∷ []) ≡ pos n
unfolding read_digits
atoi-show_nat_line n = atoi-show_nat n (10 ∷ [])

length-show_on : (f n : ℕ) → length (show_on f n) ≤ f
unfolding show_on
length-show_on zero n = omega arith
length-show_on (suc f) n = elim (Bool-cases (ltb n 10)) [
  | inl small ↦ rw small (omega arith)
  | inr big ↦ rw big (
      omega
        (arith, length-show_on f (n / 10), length-append (show_on f (n / 10)) ((48 + n % 10) ∷ [])))
]

-- A bound on the length of a number's text, which is enough for small numbers.
pub length-show_nat : (n : ℕ) → length (show_nat n) ≤ n + 1
unfolding show_nat
length-show_nat n = omega (arith, length-show_on (suc n) n)

-- A power of ten, by its exponent.
abbrev pub tens : ℕ → ℕ
tens zero = 1
tens (suc k) = 10 * tens k

length-show_on_digits : (f k n : ℕ) → n < tens (suc k) → length (show_on f n) ≤ suc k
unfolding show_on
length-show_on_digits zero k n h = omega arith
length-show_on_digits (suc f) zero n h = ground arith
length-show_on_digits (suc f) (suc k) n h = ground (
  arith,
  length-show_on_digits f k (n / 10) (omega arith),
  length-append (show_on f (n / 10)) ((48 + n % 10) ∷ []),
)

-- A number below a power of ten has no more digits than its exponent.
pub length-show_nat_digits : (k n : ℕ) → n < tens (suc k) → length (show_nat n) ≤ suc k
unfolding show_nat
length-show_nat_digits k n h = length-show_on_digits (suc n) k n h

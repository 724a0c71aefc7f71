-- ===== src/Driver/Sysfs.antt =====
-- The sysfs attributes of hw14-driver/mouse_driv.c. The kernel's number parsers are arguments:
-- `none` is their error return.
use native.Mathlib.Decide.{dec_le, ℕ_discrete}
use otus_c_2025_3_kushko.Common.{
  ℕ, ◌-◌, ◌^◌, ◌≤◌, ◌<◌, ◌≡◌, ◌≢◌, refl, ◌⊎◌, inl, inr, ◌||◌, Option, none, some, Option-cases,
  List, [], ◌∷◌, ◌++◌, length, ltb, ◌==◌, eq→==, ne→==, not, if◌then◌else◌, arith,
}
use otus_c_2025_3_kushko.Common.Int.{ℤ, pos, ltb_ℤ, ◌≤ℤ◌}
use otus_c_2025_3_kushko.Common.Decimal.{show_nat, show_int}
use otus_c_2025_3_kushko.Driver.Kernel.{Kernel, Ret, done, einval, enomem, ebusy, sub_size}
use otus_c_2025_3_kushko.Driver.Ring.{Ring, available}
use otus_c_2025_3_kushko.Driver.Ring.Inv.{IsValid, contents, length-contents, available-le-size}

unfoldable pub display_mode_show : ℤ → List ℕ
unfolding show_int
display_mode_show mode = show_int mode ++ 10 ∷ []

-- The display mode after a store, and the return value.
unfoldable pub display_mode_store : (List ℕ → Option ℤ) → ℤ → List ℕ → ℕ → ℤ × Ret
display_mode_store kstrtoint mode buf count = elim (kstrtoint buf) [
  | none ↦ (mode, einval)
  | some value ↦
      if ltb_ℤ value (pos 0) || ltb_ℤ (pos 2) value then (mode, einval) else (value, done count)
]

-- The two numbers that `buffer_status_show` prints.
unfoldable pub buffer_status : Ring → ℕ × ℕ
buffer_status r = let used = available r in (used, sub_size (sub_size r.size used) 1)

-- "Used: %zu, Free: %zu\n"
unfoldable pub buffer_status_show : Ring → List ℕ
unfolding buffer_status show_nat
buffer_status_show r =
    (b'U' ∷ b's' ∷ b'e' ∷ b'd' ∷ b':' ∷ 32 ∷ [])
    ++ show_nat (buffer_status r).0
    ++ (b',' ∷ 32 ∷ b'F' ∷ b'r' ∷ b'e' ∷ b'e' ∷ b':' ∷ 32 ∷ [])
    ++ show_nat (buffer_status r).1
    ++ 10 ∷ []

unfoldable pub buffer_size_show : Ring → List ℕ
unfolding show_nat
buffer_size_show r = show_nat r.size ++ 10 ∷ []

unfoldable pub buffer_size_store : Kernel → (List ℕ → Option ℕ) → Ring → List ℕ → ℕ → Ring × Ret
buffer_size_store k kstrtoul r buf count = elim (kstrtoul buf) [
  | none ↦ (r, einval)
  | some new_size ↦
      if ltb new_size 64 || ltb 65536 new_size then (r, einval) else elim (k.kmalloc new_size) [
        | none ↦ (r, enomem)
        | some new_data ↦
            if not (r.head == r.tail)
            then (r, ebusy)
            else (record { bytes = new_data; size = new_size; head = 0; tail = 0 }, done count)
      ]
]

unfoldable pub clear_buffer_store : (List ℕ → Option ℤ) → Ring → List ℕ → ℕ → Ring × Ret
clear_buffer_store kstrtoint r buf count = elim (kstrtoint buf) [
  | none ↦ (r, einval)
  | some value ↦
      if ltb_ℤ value (pos 1) || ltb_ℤ (pos 1) value
      then (r, einval)
      else (record r { head = 0; tail = 0 }, done count)
]

-- A mode that was from 0 to 2 stays so, whatever is stored; a store that is refused keeps the mode,
-- and one that is accepted sets it to the number that was parsed.
display_mode_store_lem :
    (kstrtoint : List ℕ → Option ℤ) (mode : ℤ) (buf : List ℕ) (count : ℕ)
    → (pos 0 ≤ℤ mode) × (mode ≤ℤ pos 2)
    → let (mode', ret) = display_mode_store kstrtoint mode buf count in
      (pos 0 ≤ℤ mode')
      × (mode' ≤ℤ pos 2)
      × (((ret ≡ einval) × (mode' ≡ mode)) ⊎ ((ret ≡ done count) × (kstrtoint buf ≡ some mode')))
unfolding display_mode_store
display_mode_store_lem kstrtoint mode buf count h = ground arith

-- The numbers shown of a valid ring are the bytes stored and the rest of the size less one; of a
-- ring that is filled to its last byte the second is 2 ^ 64 - 1.
buffer_status_lem :
    (r : Ring)
    → IsValid r
    → ((buffer_status r).0 ≡ length (contents r))
      × ((buffer_status r).1 ≡ (
          if length (contents r) == r.size then 2 ^ 64 - 1 else r.size - length (contents r) - 1))
unfolding buffer_status
buffer_status_lem r v = ground (arith, length-contents v, available-le-size v)

module _ (k : Kernel) (kstrtoul : List ℕ → Option ℕ) (r : Ring) (buf : List ℕ) (count : ℕ) where
  -- How a store of a size can end.
  abbrev pub SizeStored : Ring → Ret → Type 0
  SizeStored r' ret =
      ((ret ≡ einval) × (r' ≡ r) × (kstrtoul buf ≡ none))
      ⊎ ((n : ℕ) × (kstrtoul buf ≡ some n) × (ret ≡ einval) × (r' ≡ r) × ((n < 64) ⊎ (65536 < n)))
      ⊎ ((n : ℕ) × (kstrtoul buf ≡ some n) × (ret ≡ enomem) × (r' ≡ r) × (k.kmalloc n ≡ none))
      ⊎ ((ret ≡ ebusy) × (r' ≡ r) × (r.head ≢ r.tail))
      ⊎ ((ret ≡ done count)
          × (r.head ≡ r.tail)
          × (kstrtoul buf ≡ some r'.size)
          × (64 ≤ r'.size)
          × (r'.size ≤ 65536)
          × (contents r' ≡ []))

  store-none : kstrtoul buf ≡ none → buffer_size_store k kstrtoul r buf count ≡ (r, einval)
  unfolding buffer_size_store
  store-none e = ground arith

  store-small :
      (n : ℕ)
      → kstrtoul buf ≡ some n
      → (n < 64) ⊎ (65536 < n)
      → buffer_size_store k kstrtoul r buf count ≡ (r, einval)
  unfolding buffer_size_store
  store-small n e h = ground arith

  store-memory :
      (n : ℕ)
      → kstrtoul buf ≡ some n
      → 64 ≤ n
      → n ≤ 65536
      → k.kmalloc n ≡ none
      → buffer_size_store k kstrtoul r buf count ≡ (r, enomem)
  unfolding buffer_size_store
  store-memory n e lo hi m = ground arith

  store-found :
      (n : ℕ) (d : List ℕ)
      → kstrtoul buf ≡ some n
      → 64 ≤ n
      → n ≤ 65536
      → k.kmalloc n ≡ some d
      → buffer_size_store k kstrtoul r buf count ≡ (
          if r.head == r.tail
          then (record { bytes = d; size = n; head = 0; tail = 0 }, done count)
          else (r, ebusy))
  unfolding buffer_size_store
  store-found n d e lo hi m = ground arith

  resized :
      (n : ℕ) (d : List ℕ)
      → k.kmalloc n ≡ some d
      → n ≤ 65536
      → IsValid (record { bytes = d; size = n; head = 0; tail = 0 })
  resized n d m hi = omega (arith, k.length-kmalloc n d m)

-- Storing a size keeps a valid ring valid, and ends in one of the ways that `SizeStored` lists:
-- refused with the ring as it was, with `einval` for a text that is no number or a number that is
-- not from 64 to 65536, with `enomem` where `kmalloc` fails, with `ebusy` while `head` and `tail`
-- differ; or done, from equal `head` and `tail`, with an empty ring of the size that was parsed.
pub buffer_size_store_lem :
    (k : Kernel) (kstrtoul : List ℕ → Option ℕ) (r : Ring) (buf : List ℕ) (count : ℕ)
    → IsValid r
    → IsValid (buffer_size_store k kstrtoul r buf count).0
      × SizeStored k kstrtoul r buf count
          (buffer_size_store k kstrtoul r buf count).0
          (buffer_size_store k kstrtoul r buf count).1
buffer_size_store_lem k kstrtoul r buf count v = elim (Option-cases (kstrtoul buf)) [
  | inl e ↦ rw (store-none k kstrtoul r buf count e) (v, inl (refl, refl, e))
  | inr (n, e) ↦ elim (dec_le 64 n) [
    | no low ↦
        rw (store-small k kstrtoul r buf count n e (inl (omega arith)))
          (v, inr (inl (n, e, refl, refl, inl (omega arith))))
    | yes lo ↦ elim (dec_le n 65536) [
      | no high ↦
          rw (store-small k kstrtoul r buf count n e (inr (omega arith)))
            (v, inr (inl (n, e, refl, refl, inr (omega arith))))
      | yes hi ↦ elim (Option-cases (k.kmalloc n)) [
        | inl m ↦
            rw (store-memory k kstrtoul r buf count n e lo hi m)
              (v, inr (inr (inl (n, e, refl, refl, m))))
        | inr (d, m) ↦
            rw (store-found k kstrtoul r buf count n d e lo hi m) (elim (ℕ_discrete r.head r.tail) [
              | yes same ↦ rw (eq→== r.head r.tail same) (
                resized k kstrtoul r buf count n d m hi,
                inr (inr (inr (inr (refl, same, e, lo, hi, unfold contents in refl)))),
              )
              | no differ ↦
                  rw (ne→== r.head r.tail differ) (v, inr (inr (inr (inl (refl, refl, differ)))))
            ])
      ]
    ]
  ]
]

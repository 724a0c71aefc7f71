-- ===== src/Driver/Ring/Write.antt =====
-- What `ring_buffer_write` of hw14-driver/mouse_driv.c does to the bytes stored.
use native.Mathlib.Decide.{dec_le, ℕ_discrete}
use otus_c_2025_3_kushko.Common.{
  ℕ, ◌+◌, ◌≤◌, ◌<◌, ◌≡◌, refl, ap, sym, subst, ◌∙◌, ◌⊎◌, inl, List, [], ◌++◌, length, take, blit,
  length-blit, arith, min, take-split, drop-take,
}
use otus_c_2025_3_kushko.Driver.Kernel.{Kernel, Ret, done, enospc, efault, add_size, sub_size}
use otus_c_2025_3_kushko.Driver.Ring.{Ring, copy_in, space, available, ring_buffer_write}
use otus_c_2025_3_kushko.Driver.Ring.Inv.{IsValid, contents}
use otus_c_2025_3_kushko.Driver.Ring.Store.{
  straight-append, gap-append, round-append, straight-pending, gap-pending, round-pending,
}

-- Writes that leave a byte free, or that start from `tail` at 0, cannot meet `tail` from behind.
abbrev pub Fits : Ring → ℕ → Type 0
Fits r n = (available r + n < r.size) ⊎ (r.tail ≡ 0)

module _ (k : Kernel) (r : Ring) (v : IsValid r) (u : List ℕ) (n : ℕ) (pos : 0 < n)
    (room : n ≤ space r) where
  abbrev block : List ℕ
  block = (k.copy_from_user u 0 n).0

  -- A write that does not reach the end of the array.
  copy_in-straight :
      r.head + n ≤ r.size
      → n ≤ length u
      → (copy_in k r u n).1 ≡ done n
      → (contents (copy_in k r u n).0 ≡ contents r ++ take n u) × IsValid (copy_in k r u n).0
  unfolding copy_in space
  copy_in-straight fits enough ok = ground (
    arith,
    k.copied u 0 n,
    k.length-copy u 0 n,
    length-blit r.bytes block r.head,
    straight-append r v block (add_size r.head n),
    gap-append r v block (add_size r.head n),
  )

  abbrev first : ℕ
  first = sub_size r.size r.head

  abbrev front : List ℕ
  front = (k.copy_from_user u 0 first).0

  abbrev back : List ℕ
  back = (k.copy_from_user u first (sub_size n first)).0

  -- A write that goes round the end of the array and leaves room before `tail`.
  copy_in-round :
      r.size < r.head + n
      → r.head + n < r.size + r.tail
      → n ≤ length u
      → (copy_in k r u n).1 ≡ done n
      → (contents (copy_in k r u n).0 ≡ contents r ++ take n u) × IsValid (copy_in k r u n).0
  unfolding copy_in space
  copy_in-round over gap enough ok = ground (
    arith,
    k.copied u 0 first,
    k.copied u first (sub_size n first),
    k.length-copy u 0 first,
    k.length-copy u first (sub_size n first),
    length-blit r.bytes front r.head,
    length-blit (blit r.bytes r.head front) back 0,
    round-append r v front back,
    take-split first n u,
  )

  -- A write that goes round the end of the array up to `tail` leaves the buffer looking empty.
  copy_in-lost :
      r.size < r.head + n
      → r.head + n ≡ r.size + r.tail
      → (copy_in k r u n).1 ≡ done n
      → (contents (copy_in k r u n).0 ≡ []) × IsValid (copy_in k r u n).0
  unfolding copy_in space contents
  copy_in-lost over full ok = ground (
    arith,
    k.length-copy u 0 first,
    k.length-copy u first (sub_size n first),
    length-blit r.bytes front r.head,
    length-blit (blit r.bytes r.head front) back 0,
    drop-take r.tail r.tail (blit (blit r.bytes r.head front) 0 back),
  )

  copy_in-efault :
      (copy_in k r u n).1 ≡ efault
      → (contents (copy_in k r u n).0 ≡ contents r)
        × ((copy_in k r u n).0.head ≡ r.head)
        × ((copy_in k r u n).0.tail ≡ r.tail)
        × IsValid (copy_in k r u n).0
  unfolding copy_in space
  copy_in-efault bad = ground (
    arith,
    k.length-copy u 0 n,
    k.length-copy u 0 first,
    k.length-copy u first (sub_size n first),
    length-blit r.bytes block r.head,
    length-blit r.bytes front r.head,
    length-blit (blit r.bytes r.head front) back 0,
    straight-pending r v block,
    gap-pending r v block,
    straight-pending r v front,
    round-pending r v front back,
  )

  -- The count reported is the count asked for.
  copy_in-done : (m : ℕ) → (copy_in k r u n).1 ≡ done m → m ≡ n
  unfolding copy_in
  copy_in-done m ok = ground arith

  -- The copies answer with the count or with a fault.
  copy_in-ret : ((copy_in k r u n).1 ≡ done n) ⊎ ((copy_in k r u n).1 ≡ efault)
  unfolding copy_in
  copy_in-ret = ground arith

  copy_in-tail : (copy_in k r u n).0.tail ≡ r.tail
  unfolding copy_in
  copy_in-tail = ground arith

  copy_in-IsValid : IsValid (copy_in k r u n).0
  unfolding copy_in space
  copy_in-IsValid = ground (
    arith,
    k.length-copy u 0 n,
    k.length-copy u 0 first,
    k.length-copy u first (sub_size n first),
    length-blit r.bytes block r.head,
    length-blit r.bytes front r.head,
    length-blit (blit r.bytes r.head front) back 0,
  )

  copy_in-appends :
      Fits r n
      → n ≤ length u
      → (copy_in k r u n).1 ≡ done n
      → contents (copy_in k r u n).0 ≡ contents r ++ take n u
  copy_in-appends fits enough ok = elim (dec_le (r.head + n) r.size) [
    | yes straight ↦ (copy_in-straight straight enough ok).0
    | no over ↦ (copy_in-round (omega arith) (unfold space available in ground arith) enough ok).0
  ]

module _ (k : Kernel) (r : Ring) (v : IsValid r) (u : List ℕ) (count n : ℕ) where
  -- A write that reports a count is the copy of that count.
  write-done :
      (ring_buffer_write k r u count).1 ≡ done n
      → (0 < n) × (n ≡ min count (space r)) × (ring_buffer_write k r u count ≡ copy_in k r u n)
  unfolding ring_buffer_write
  write-done ok = elim (ℕ_discrete (min count (space r)) 0) [
    | yes none_fits ↦ ground arith
    | no some_fits ↦
        let copies : ring_buffer_write k r u count ≡ copy_in k r u (min count (space r)) =
          ground arith in
        let same : n ≡ min count (space r) =
          copy_in-done k r v u (min count (space r)) (omega arith) (omega arith) n
            (sym (ap (λ (p : Ring × Ret). p.1) copies) ∙ ok) in
        (omega arith, same, copies ∙ ap (λ m. copy_in k r u m) (sym same))
  ]

-- On a valid ring, a write that returns `done n` stores exactly the first `n` bytes of the caller
-- behind what was there, keeps the ring valid, and `n` is the smaller of `count` and the free
-- space; the condition is that `n` bytes leave one byte of the buffer free or that `tail` is 0.
pub write-appends :
    (k : Kernel) (r : Ring) (u : List ℕ) (count n : ℕ)
    → IsValid r
    → count ≤ length u
    → Fits r n
    → (ring_buffer_write k r u count).1 ≡ done n
    → (n ≡ min count (space r))
      × (contents (ring_buffer_write k r u count).0 ≡ contents r ++ take n u)
      × IsValid (ring_buffer_write k r u count).0
write-appends k r u count n v enough fits ok =
    let (pos, same, copies) = write-done k r v u count n ok in
    let copied : (copy_in k r u n).1 ≡ done n = sym (ap (λ (p : Ring × Ret). p.1) copies) ∙ ok in
    let room : n ≤ space r = omega arith in
    (
      same,
      ap (λ (p : Ring × Ret). contents p.0) copies
          ∙ copy_in-appends k r v u n pos room fits (omega arith) copied,
      subst (λ (p : Ring × Ret). IsValid p.0) (sym copies) (copy_in-IsValid k r v u n pos room),
    )

-- On a valid ring whose `tail` is not 0, a write that fills the buffer to its last byte from
-- `tail` round to `tail` reports success and leaves the buffer empty: all bytes are lost.
pub write-loses :
    (k : Kernel) (r : Ring) (u : List ℕ) (count n : ℕ)
    → IsValid r
    → 0 < r.tail
    → available r + n ≡ r.size
    → (ring_buffer_write k r u count).1 ≡ done n
    → contents (ring_buffer_write k r u count).0 ≡ []
write-loses k r u count n v enough fits ok =
    let (pos, same, copies) = write-done k r v u count n ok in
    let copied : (copy_in k r u n).1 ≡ done n = sym (ap (λ (p : Ring × Ret). p.1) copies) ∙ ok in
    let room : n ≤ space r = omega arith in
    let over : r.size < r.head + n = unfold space available in ground arith in
    let meets : r.head + n ≡ r.size + r.tail = unfold space available in ground arith in
    ap (λ (p : Ring × Ret). contents p.0) copies
    ∙ (copy_in-lost k r v u n pos room over meets copied).0

-- On a valid ring a write answers in one of three ways: with `enospc` exactly when nothing was
-- asked for or no space is free, and then the ring is as it was; with `efault`, and then the bytes
-- stored, `head` and `tail` are as they were; or with the count written. The ring stays valid.
pub write-outcomes :
    (k : Kernel) (r : Ring) (u : List ℕ) (count : ℕ)
    → IsValid r
    → let (r', ret) = ring_buffer_write k r u count in
      IsValid r'
      × (((min count (space r) ≡ 0) × (ret ≡ enospc) × (r' ≡ r))
          ⊎ ((0 < min count (space r))
              × (ret ≡ efault)
              × (contents r' ≡ contents r)
              × (r'.head ≡ r.head)
              × (r'.tail ≡ r.tail))
          ⊎ ((0 < min count (space r)) × (ret ≡ done (min count (space r))) × (r'.tail ≡ r.tail)))
unfolding ring_buffer_write
write-outcomes k r u count v = elim (ℕ_discrete (min count (space r)) 0) [
  | yes z ↦ rw z (v, inl (refl, refl, refl))
  | no nz ↦
      let m = min count (space r) in
      ground (
        arith,
        copy_in-IsValid k r v u m (omega arith) (omega arith),
        copy_in-ret k r v u m (omega arith) (omega arith),
        copy_in-efault k r v u m (omega arith) (omega arith),
        copy_in-tail k r v u m (omega arith) (omega arith),
      )
]

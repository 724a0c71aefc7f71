-- ===== src/Driver/Ring/Fetch.antt =====
-- What `ring_buffer_read` of hw14-driver/mouse_driv.c does to the bytes stored.
use native.Mathlib.Decide.{ℕ_discrete}
use otus_c_2025_3_kushko.Common.{
  ℕ, ◌+◌, ◌-◌, ◌≤◌, ◌<◌, ◌≡◌, refl, ap, ap₂, sym, ◌∙◌, ◌⊎◌, inl, [], ◌++◌, length, take, drop,
  length-append, length-take, length-drop, append_assoc, arith, min, take-split, take-all,
  drop-take, drop-drop, take-append-drop, append-eq_whole,
}
use otus_c_2025_3_kushko.Driver.Kernel.{Kernel, done, efault, add_size, sub_size}
use otus_c_2025_3_kushko.Driver.Ring.{Ring, Read, copy_out, available, ring_buffer_read}
use otus_c_2025_3_kushko.Driver.Ring.Inv.{IsValid, contents, length-contents}
use otus_c_2025_3_kushko.Driver.Ring.Store.{contents_straight, contents_wrapped}

-- The ring with `tail` moved on.
abbrev pub advanced : Ring → ℕ → Ring
advanced r t = record r { tail = t }

module _ (r : Ring) (v : IsValid r) (n : ℕ) where
  -- The oldest `n` bytes stand at `tail`, and the rest behind them.
  straight-split :
      (t : ℕ)
      → t ≡ r.tail + n
      → r.tail ≤ r.head
      → t ≤ r.head
      → take n (drop r.tail r.bytes) ++ contents (advanced r t) ≡ contents r
  straight-split t e low fits =
      ap (λ s. take n (drop r.tail r.bytes) ++ s)
        (contents_straight (advanced r t) fits
          ∙ drop-take t r.head r.bytes
          ∙ ap (λ i. take (r.head - t) (drop i r.bytes)) e
          ∙ ap (λ s. take (r.head - t) s) (sym (drop-drop n r.tail r.bytes)))
      ∙ ap (λ i. take n (drop r.tail r.bytes) ++ take i (drop n (drop r.tail r.bytes)))
          (omega arith)
      ∙ sym (take-split n (r.head - r.tail) (drop r.tail r.bytes) (omega arith))
      ∙ sym (drop-take r.tail r.head r.bytes)
      ∙ sym (contents_straight r low)

  gap-split :
      (t : ℕ)
      → t ≡ r.tail + n
      → r.head < r.tail
      → t ≤ r.size
      → take n (drop r.tail r.bytes) ++ contents (advanced r t) ≡ contents r
  gap-split t e gap fits =
      ap (λ s. take n (drop r.tail r.bytes) ++ s) (contents_wrapped (advanced r t) (omega arith))
      ∙ sym (append_assoc (take n (drop r.tail r.bytes)) (drop t r.bytes) (take r.head r.bytes))
      ∙ ap (λ s. s ++ take r.head r.bytes)
          (ap (λ i. take n (drop r.tail r.bytes) ++ drop i r.bytes) e
            ∙ ap (λ s. take n (drop r.tail r.bytes) ++ s) (sym (drop-drop n r.tail r.bytes))
            ∙ take-append-drop n (drop r.tail r.bytes))
      ∙ sym (contents_wrapped r gap)

  round-split :
      (t first : ℕ)
      → first ≡ r.size - r.tail
      → r.head < r.tail
      → t ≤ r.head
      → (take first (drop r.tail r.bytes) ++ take t r.bytes) ++ contents (advanced r t) ≡ contents r
  round-split t first e gap fits =
      append_assoc (take first (drop r.tail r.bytes)) (take t r.bytes) (contents (advanced r t))
      ∙ ap₂ ◌++◌
          (take-all first (drop r.tail r.bytes)
            (omega (arith, length-drop r.tail r.bytes, v.storage)))
          (ap (λ s. take t r.bytes ++ s)
              (contents_straight (advanced r t) fits ∙ drop-take t r.head r.bytes)
            ∙ sym (take-split t r.head r.bytes fits))
      ∙ sym (contents_wrapped r gap)

module _ (k : Kernel) (r : Ring) (v : IsValid r) (n offset : ℕ) (pos : 0 < n)
    (room : n ≤ available r) where
  abbrev outcome : Read
  outcome = copy_out k r n offset

  copy_out-splits :
      outcome.ret ≡ done n
      → (outcome.got ++ contents outcome.ring ≡ contents r)
        × (length outcome.got ≡ n)
        × (outcome.offset ≡ offset + n)
        × IsValid outcome.ring
  unfolding copy_out available
  copy_out-splits ok = ground (
    arith,
    straight-split r v n (add_size r.tail n),
    gap-split r v n (add_size r.tail n),
    round-split r v n (sub_size n (sub_size r.size r.tail)) (sub_size r.size r.tail),
    length-take n (drop r.tail r.bytes),
    length-drop r.tail r.bytes,
    length-take (sub_size r.size r.tail) (drop r.tail r.bytes),
    length-take (sub_size n (sub_size r.size r.tail)) r.bytes,
    length-append (take (sub_size r.size r.tail) (drop r.tail r.bytes))
        (take (sub_size n (sub_size r.size r.tail)) r.bytes),
  )

  copy_out-ret :
      (outcome.ret ≡ done n)
      ⊎ ((outcome.ret ≡ efault) × (outcome.ring ≡ r) × (outcome.offset ≡ offset))
  unfolding copy_out
  copy_out-ret = ground arith

-- On a valid ring a read answers in one of three ways: with 0 exactly when nothing was asked for or
-- nothing is stored, or with `efault`, and then the ring and the offset are as they were; or with
-- the smaller of `count` and the bytes stored, and then it has delivered that many of the oldest
-- bytes, those left are what is stored now, and the offset has moved by as much. The ring stays
-- valid.
pub read-outcomes :
    (k : Kernel) (r : Ring) (count offset : ℕ)
    → IsValid r
    → let o = ring_buffer_read k r count offset in
      IsValid o.ring
      × (((min count (available r) ≡ 0) × (o.ret ≡ done 0) × (o.ring ≡ r) × (o.offset ≡ offset))
          ⊎ ((0 < min count (available r)) × (o.ret ≡ efault) × (o.ring ≡ r) × (o.offset ≡ offset))
          ⊎ ((0 < min count (available r))
              × (o.ret ≡ done (min count (available r)))
              × (o.got ++ contents o.ring ≡ contents r)
              × (length o.got ≡ min count (available r))
              × (o.offset ≡ offset + min count (available r))))
unfolding ring_buffer_read
read-outcomes k r count offset v = elim (ℕ_discrete (min count (available r)) 0) [
  | yes z ↦ rw z (v, inl (refl, refl, refl, refl))
  | no nz ↦
      let m = min count (available r) in
      ground (
        arith,
        copy_out-splits k r v m offset (omega arith) (omega arith),
        copy_out-ret k r v m offset (omega arith) (omega arith),
      )
]

-- A read that asks for at least all that is stored and succeeds delivers exactly the bytes stored
-- and leaves none, on a valid ring that stores something.
read-all :
    (k : Kernel) (r : Ring) (count offset n : ℕ)
    → IsValid r
    → 0 < available r
    → available r ≤ count
    → (ring_buffer_read k r count offset).ret ≡ done n
    → ((ring_buffer_read k r count offset).got ≡ contents r)
      × (contents (ring_buffer_read k r count offset).ring ≡ [])
read-all k r count offset n v some_stored enough ok = ground (
  arith,
  read-outcomes k r count offset v,
  length-contents v,
  append-eq_whole (ring_buffer_read k r count offset).got
      (contents (ring_buffer_read k r count offset).ring) (contents r),
)

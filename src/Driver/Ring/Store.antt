-- ===== src/Driver/Ring/Store.antt =====
-- Storing a block behind `head`, straight or round the end, on a valid ring.
use otus_c_2025_3_kushko.Common.{
  ℕ, ◌+◌, ◌-◌, ◌≤◌, ◌<◌, ◌≡◌, ap, ap₂, sym, ◌∙◌, List, ◌++◌, length, take, drop, blit, length-take,
  length-blit, append_assoc, arith, drop-append_le, take-blit, take-blit_end, drop-blit, take-all,
  drop-take,
}
use otus_c_2025_3_kushko.Driver.Ring.{Ring}
use otus_c_2025_3_kushko.Driver.Ring.Inv.{IsValid, contents}

pub contents_straight :
    (r : Ring) → r.tail ≤ r.head → contents r ≡ drop r.tail (take r.head r.bytes)
unfolding contents
contents_straight r h = ground arith

pub contents_wrapped :
    (r : Ring) → r.head < r.tail → contents r ≡ drop r.tail r.bytes ++ take r.head r.bytes
unfolding contents
contents_wrapped r h = ground arith

-- The bytes and `head` after a block has been stored.
abbrev pub stored : Ring → List ℕ → ℕ → Ring
stored r bytes head = record r { bytes = bytes; head = head }

module _ (r : Ring) (v : IsValid r) (bs : List ℕ) where
  pub straight-append :
      (h : ℕ)
      → r.tail ≤ r.head
      → h ≡ r.head + length bs
      → h ≤ r.size
      → contents (stored r (blit r.bytes r.head bs) h) ≡ contents r ++ bs
  straight-append h low e fits =
      contents_straight (stored r (blit r.bytes r.head bs) h) (omega arith)
      ∙ ap (λ t. drop r.tail t) (take-blit_end h r.bytes bs r.head e (omega (arith, v.storage)))
      ∙ drop-append_le r.tail (take r.head r.bytes) bs
          (omega (arith, length-take r.head r.bytes, v.storage, v.head_in))
      ∙ ap (λ t. t ++ bs) (sym (contents_straight r low))

  pub gap-append :
      (h : ℕ)
      → h ≡ r.head + length bs
      → h < r.tail
      → contents (stored r (blit r.bytes r.head bs) h) ≡ contents r ++ bs
  gap-append h e room =
      contents_wrapped (stored r (blit r.bytes r.head bs) h) room
      ∙ ap₂ ◌++◌
          (drop-blit r.tail r.bytes bs r.head (omega arith) (omega (arith, v.storage, v.tail_in)))
          (take-blit_end h r.bytes bs r.head e (omega (arith, v.storage, v.tail_in)))
      ∙ sym (append_assoc (drop r.tail r.bytes) (take r.head r.bytes) bs)
      ∙ ap (λ t. t ++ bs) (sym (contents_wrapped r (omega arith)))

  -- Bytes that are stored without moving `head` are not yet there.
  pub straight-pending :
      r.tail ≤ r.head → contents (record r { bytes = blit r.bytes r.head bs }) ≡ contents r
  straight-pending low =
      contents_straight (record r { bytes = blit r.bytes r.head bs }) low
      ∙ ap (λ t. drop r.tail t)
          (take-blit r.head r.bytes bs r.head (omega arith) (omega (arith, v.storage, v.head_in)))
      ∙ sym (contents_straight r low)

  pub gap-pending :
      r.head < r.tail
      → r.head + length bs ≤ r.tail
      → contents (record r { bytes = blit r.bytes r.head bs }) ≡ contents r
  gap-pending gap fits =
      contents_wrapped (record r { bytes = blit r.bytes r.head bs }) gap
      ∙ ap₂ ◌++◌ (drop-blit r.tail r.bytes bs r.head fits (omega (arith, v.storage, v.tail_in)))
          (take-blit r.head r.bytes bs r.head (omega arith) (omega (arith, v.storage, v.head_in)))
      ∙ sym (contents_wrapped r gap)

  module _ (cs : List ℕ) (end : r.head + length bs ≡ r.size) (low : r.tail ≤ r.head) where
    pub round-append :
        length cs < r.tail
        → contents (stored r (blit (blit r.bytes r.head bs) 0 cs) (length cs))
          ≡ contents r ++ (bs ++ cs)
    round-append room =
        let mid : List ℕ = blit r.bytes r.head bs in
        let n : length mid ≡ r.size =
          length-blit r.bytes bs r.head (omega (arith, v.storage)) ∙ v.storage in
        contents_wrapped (stored r (blit mid 0 cs) (length cs)) room
        ∙ ap₂ ◌++◌
            (drop-blit r.tail mid cs 0 (omega arith) (omega (arith, v.tail_in))
              ∙ ap (λ t. drop r.tail t)
                  (sym (take-all r.size mid (omega arith))
                    ∙ take-blit_end r.size r.bytes bs r.head (sym end) (omega (arith, v.storage)))
              ∙ drop-append_le r.tail (take r.head r.bytes) bs
                  (omega (arith, length-take r.head r.bytes, v.storage, v.head_in)))
            (take-blit_end (length cs) mid cs 0 (omega arith) (omega (arith, v.tail_in)))
        ∙ append_assoc (drop r.tail (take r.head r.bytes)) bs cs
        ∙ ap (λ t. t ++ (bs ++ cs)) (sym (contents_straight r low))

    pub round-pending :
        length cs ≤ r.tail
        → contents (record r { bytes = blit (blit r.bytes r.head bs) 0 cs }) ≡ contents r
    round-pending room =
        let mid : List ℕ = blit r.bytes r.head bs in
        let n : length mid ≡ r.size =
          length-blit r.bytes bs r.head (omega (arith, v.storage)) ∙ v.storage in
        contents_straight (record r { bytes = blit mid 0 cs }) low
        ∙ drop-take r.tail r.head (blit mid 0 cs)
        ∙ ap (λ t. take (r.head - r.tail) t)
            (drop-blit r.tail mid cs 0 (omega arith) (omega (arith, v.tail_in)))
        ∙ sym (drop-take r.tail r.head mid)
        ∙ sym (contents_straight (record r { bytes = mid }) low)
        ∙ straight-pending low

-- ===== src/Driver/Ring/Inv.antt =====
-- The representation invariant of the ring buffer, and what it holds.
use otus_c_2025_3_kushko.Common.{
  ℕ, ◌-◌, ◌^◌, ◌≤◌, ◌<◌, ◌≡◌, List, ◌++◌, length, take, drop, leb, arith, if◌then◌else◌,
  length-append, length-take, length-drop,
}
use otus_c_2025_3_kushko.Driver.Ring.{Ring, space, available}

pub record IsValid (r : Ring) : Type 0 where
  pub storage : length r.bytes ≡ r.size
  pub small : r.size < 2 ^ 63
  pub head_in : r.head ≤ r.size
  pub tail_in : r.tail ≤ r.size

-- The bytes stored, oldest first.
unfoldable pub contents : Ring → List ℕ
contents r =
    if leb r.tail r.head
    then drop r.tail (take r.head r.bytes)
    else drop r.tail r.bytes ++ take r.head r.bytes

-- `available` counts the bytes stored.
pub length-contents : {r : Ring} → IsValid r → length (contents r) ≡ available r
unfolding contents available
length-contents {r} v = ground (
  arith,
  length-append (drop r.tail r.bytes) (take r.head r.bytes),
  length-take r.head r.bytes,
  length-drop r.tail r.bytes,
  length-drop r.tail (take r.head r.bytes),
)

-- What fits beside the bytes stored: all that is left, or one less once the data wraps.
pub space-available :
    {r : Ring}
    → IsValid r
    → space r ≡ (if leb r.tail r.head then r.size - available r else r.size - available r - 1)
unfolding space available
space-available v = ground arith

pub available-le-size : {r : Ring} → IsValid r → available r ≤ r.size
unfolding available
available-le-size v = ground arith

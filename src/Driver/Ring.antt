-- ===== src/Driver/Ring.antt =====
-- The ring buffer of hw14-driver/mouse_driv.c: `struct ring_buffer`, `ring_buffer_init`, `_free`,
-- `_write` and `_read`. Each call runs under the mutex, so a call is one step of the state.
pub mod Inv
pub mod Store
pub mod Write
pub mod Fetch
use otus_c_2025_3_kushko.Common.{
  ℕ, ◌+◌, ◌^◌, Bool, Option, none, some, List, [], ◌++◌, length, take, drop, min, leb, ◌==◌,
  if◌then◌else◌, blit,
}
use otus_c_2025_3_kushko.Driver.Kernel.{
  Kernel, Ret, done, enomem, enospc, efault, add_size, sub_size,
}

-- `buffer`; `[]` in `bytes` is the null pointer.
pub record Ring : Type 0 where
  pub bytes : List ℕ
  pub size : ℕ
  pub head : ℕ
  pub tail : ℕ

unfoldable pub ring_buffer_init : Kernel → Ring → ℕ → Ring × Ret
ring_buffer_init k r size = elim (k.kmalloc size) [
  | none ↦ (record r { bytes = [] }, enomem)
  | some d ↦ (record { bytes = d; size = size; head = 0; tail = 0 }, done 0)
]

unfoldable pub ring_buffer_free : Ring → Ring
ring_buffer_free r = record r { bytes = [] }

-- The free space, as `ring_buffer_write` and `simulate_mouse_data` compute it.
unfoldable pub space : Ring → ℕ
space r =
    if leb r.tail r.head
    then sub_size r.size (sub_size r.head r.tail)
    else sub_size (sub_size r.tail r.head) 1

-- The bytes stored, as `ring_buffer_read` and `buffer_status_show` compute them.
unfoldable pub available : Ring → ℕ
available r =
    if leb r.tail r.head then sub_size r.head r.tail else add_size (sub_size r.size r.tail) r.head

-- The copies of `ring_buffer_write`. A copy that fails has stored its bytes and leaves `head`.
unfoldable pub copy_in : Kernel → Ring → List ℕ → ℕ → Ring × Ret
copy_in k r user n =
    if leb (add_size r.head n) r.size
    then (let (bs, left) = k.copy_from_user user 0 n in
        let stored = record r { bytes = blit r.bytes r.head bs } in
        if left == 0
        then (record stored { head = add_size r.head n }, done n)
        else (stored, efault))
    else (let first = sub_size r.size r.head in
        let (bs, left) = k.copy_from_user user 0 first in
        let stored = record r { bytes = blit r.bytes r.head bs } in
        if left == 0
        then (let (cs, left') = k.copy_from_user user first (sub_size n first) in
            let both = record stored { bytes = blit stored.bytes 0 cs } in
            if left' == 0
            then (record both { head = sub_size n first }, done n)
            else (both, efault))
        else (stored, efault))

unfoldable pub ring_buffer_write : Kernel → Ring → List ℕ → ℕ → Ring × Ret
ring_buffer_write k r user count =
    let to_write = min count (space r) in
    if to_write == 0 then (r, enospc) else copy_in k r user to_write

-- The outcome of a read: the return value, the bytes that the caller received on success, and the
-- file offset.
pub record Read : Type 0 where
  pub ring : Ring
  pub ret : Ret
  pub got : List ℕ
  pub offset : ℕ

unfoldable pub copy_out : Kernel → Ring → ℕ → ℕ → Read
copy_out k r n offset =
    let fault : Read = record { ring = r; ret = efault; got = []; offset = offset } in
    if leb (add_size r.tail n) r.size
    then (let bs = take n (drop r.tail r.bytes) in
        if k.copy_to_user 0 bs == 0
        then record {
          ring = record r { tail = add_size r.tail n };
          ret = done n;
          got = bs;
          offset = offset + n;
        }
        else fault)
    else (let first = sub_size r.size r.tail in
        let bs = take first (drop r.tail r.bytes) in
        let cs = take (sub_size n first) r.bytes in
        if k.copy_to_user 0 bs == 0
        then (if k.copy_to_user first cs == 0
            then record {
              ring = record r { tail = sub_size n first };
              ret = done n;
              got = bs ++ cs;
              offset = offset + n;
            }
            else fault)
        else fault)

unfoldable pub ring_buffer_read : Kernel → Ring → ℕ → ℕ → Read
ring_buffer_read k r count offset =
    let to_read = min count (available r) in
    if to_read == 0
    then record { ring = r; ret = done 0; got = []; offset = offset }
    else copy_out k r to_read offset

-- ===== src/Driver/Kernel.antt =====
-- What hw14-driver/mouse_driv.c takes from the kernel, and `size_t` arithmetic.
use otus_c_2025_3_kushko.Common.{
  ℕ, ◌+◌, ◌-◌, ◌%◌, ◌^◌, ◌≤◌, ◌≡◌, Option, some, List, length, take, drop,
}

abbrev pub add_size : ℕ → ℕ → ℕ
add_size a b = (a + b) % 2 ^ 64

abbrev pub sub_size : ℕ → ℕ → ℕ
sub_size a b = (a + 2 ^ 64 - b) % 2 ^ 64

-- The return value of a handler: a count, or a negated error number.
pub data Ret : Type 0 where
  done : ℕ → Ret
  einval enomem ebusy enospc efault : Ret

-- The kernel's services. `copy_from_user u i n` reads the `n` bytes from `u + i` on; it gives
-- what is stored into the kernel's buffer, `n` bytes with zeros for those that cannot be read, and
-- how many those are. `copy_to_user i bs` gives how many of `bs` could not be written at `i`.
pub record Kernel : Type 0 where
  pub kmalloc : ℕ → Option (List ℕ)
  pub length-kmalloc : (n : ℕ) (d : List ℕ) → kmalloc n ≡ some d → length d ≡ n
  pub copy_from_user : List ℕ → ℕ → ℕ → List ℕ × ℕ
  pub length-copy : (u : List ℕ) (i n : ℕ) → length (copy_from_user u i n).0 ≡ n
  pub copied :
      (u : List ℕ) (i n : ℕ)
      → (copy_from_user u i n).1 ≡ 0
      → i + n ≤ length u
      → (copy_from_user u i n).0 ≡ take n (drop i u)
  pub copy_to_user : ℕ → List ℕ → ℕ

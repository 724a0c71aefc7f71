-- ===== src/Driver/Lifecycle.antt =====
-- Loading and unloading of hw14-driver/mouse_driv.c: `mouse_driv_init` and `mouse_driv_exit`.
use otus_c_2025_3_kushko.Common.{
  ℕ, ◌^◌, ◌<◌, ◌≡◌, ◌⊎◌, inl, inr, Bool, true, false, Option-cases, [], arith, if◌then◌else◌, not,
}
use otus_c_2025_3_kushko.Common.Int.{ℤ, pos, ltb_ℤ}
use otus_c_2025_3_kushko.Driver.Kernel.{Kernel, done}
use otus_c_2025_3_kushko.Driver.Ring.{Ring, ring_buffer_init, ring_buffer_free}
use otus_c_2025_3_kushko.Driver.Ring.Inv.{IsValid, contents}

-- What the module holds of the kernel: the buffer, the character device's number, and the sysfs
-- object with its attributes.
pub record Module : Type 0 where
  pub buffer : Ring
  pub major_number : ℤ
  pub chrdev : Bool
  pub kobject : Bool
  pub attributes : Bool

-- What the kernel answers while the module loads: the number from `register_chrdev`, and whether
-- `kobject_create_and_add` and `sysfs_create_group` succeed.
pub record Registry : Type 0 where
  pub major : ℤ
  pub kobject_created : Bool
  pub group_created : Bool

-- The return value of `mouse_driv_init`.
pub data Loaded : Type 0 where
  ready no_memory : Loaded
  refused : ℤ → Loaded

unfoldable pub unregister_chrdev : Module → Module
unregister_chrdev m = record m { chrdev = false }

-- The last reference to the object takes its attributes along.
unfoldable pub kobject_put : Module → Module
kobject_put m = record m { kobject = false; attributes = false }

unfoldable pub free_buffer : Module → Module
unfolding ring_buffer_free
free_buffer m = record m { buffer = ring_buffer_free m.buffer }

-- `mouse_driv_init` once the buffer is there.
unfoldable pub register : Registry → Module → Module × Loaded
unfolding unregister_chrdev kobject_put free_buffer
register g m =
    let numbered = record m { major_number = g.major } in
    if ltb_ℤ g.major (pos 0)
    then (free_buffer numbered, refused g.major)
    else (let device = record numbered { chrdev = true } in
        if not g.kobject_created
        then (free_buffer (unregister_chrdev device), no_memory)
        else (let object = record device { kobject = true } in
            if not g.group_created
            then (free_buffer (unregister_chrdev (kobject_put object)), no_memory)
            else (record object { attributes = true }, ready)))

unfoldable pub mouse_driv_init : Kernel → Registry → ℕ → Module → Module × Loaded
unfolding register ring_buffer_init
mouse_driv_init k g buffer_size m =
    let (ring, ret) = ring_buffer_init k m.buffer buffer_size in
    let m' = record m { buffer = ring } in elim ret [ done _ ↦ register g m' | _ ↦ (m', no_memory) ]

unfoldable pub mouse_driv_exit : Module → Module
unfolding unregister_chrdev kobject_put free_buffer
mouse_driv_exit m = free_buffer (unregister_chrdev (kobject_put m))

-- Nothing of the kernel is held.
pub record IsReleased (m : Module) : Type 0 where
  pub no_buffer : m.buffer.bytes ≡ []
  pub no_device : m.chrdev ≡ false
  pub no_object : m.kobject ≡ false
  pub no_attributes : m.attributes ≡ false

-- All is held, over a valid and empty buffer.
pub record IsLoaded (m : Module) : Type 0 where
  pub buffer_valid : IsValid m.buffer
  pub buffer_empty : contents m.buffer ≡ []
  pub device : m.chrdev ≡ true
  pub object : m.kobject ≡ true
  pub attributes : m.attributes ≡ true

-- Loading a released module with a buffer size below 2 ^ 63 either holds everything, over a valid
-- empty buffer of that size, and reports success, or fails and holds nothing.
pub mouse_driv_init_lem :
    (k : Kernel) (g : Registry) (size : ℕ) (m : Module)
    → size < 2 ^ 63
    → IsReleased m
    → let (m', ret) = mouse_driv_init k g size m in
      ((ret ≡ ready) × IsLoaded m' × (m'.buffer.size ≡ size))
      ⊎ ((ret ≡ no_memory) × IsReleased m')
      ⊎ ((ret ≡ refused g.major) × IsReleased m')
unfolding mouse_driv_init contents
mouse_driv_init_lem k g size m small free = elim (Option-cases (k.kmalloc size)) [
  | inl e ↦ ground arith
  | inr (d, e) ↦ ground (arith, k.length-kmalloc size d e)
]

-- Unloading releases everything, whatever is held.
mouse_driv_exit-IsReleased : (m : Module) → IsReleased (mouse_driv_exit m)
unfolding mouse_driv_exit
mouse_driv_exit-IsReleased m = ground arith

-- ===== src/Fbdev.antt =====
-- drivers/video/fbdev/fbdev.c: the frame buffer as a file. `devs` is the memory in which the devices
-- stand, and `byte` is the memory, by address; the data of a file is the address of its device, or 0.
use trunix.Prelude.{ℕ, ◌%◌, ◌^◌, Option, none, some, ◌==◌, if◌then◌else◌}
use trunix.Pages.{move}
use trunix.KHeap.{KHeap, kmalloc}

-- What the boot loader says of the frame buffer.
pub record FbInfo : Type 0 where
  pub addr : ℕ
  pub pitch : ℕ
  pub width : ℕ
  pub height : ℕ
  pub bpp : ℕ
  pub type : ℕ
  pub palette_addr : ℕ
  pub palette_num_colors : ℕ
  pub red_field_position : ℕ
  pub red_mask_size : ℕ
  pub green_field_position : ℕ
  pub green_mask_size : ℕ
  pub blue_field_position : ℕ
  pub blue_mask_size : ℕ

-- The union: `unset` for a type that is neither.
pub data Colors : Type 0 where
  palette : ℕ → ℕ → Colors
  fields : ℕ → ℕ → ℕ → ℕ → ℕ → ℕ → Colors
  unset : Colors

pub record Device : Type 0 where
  pub addr : ℕ
  pub pitch : ℕ
  pub width : ℕ
  pub height : ℕ
  pub bpp : ℕ
  pub type : ℕ
  pub colors : Colors

pub record Devices : Type 0 where
  pub heap : KHeap
  pub devs : ℕ → Device
  pub byte : ℕ → ℕ

-- sizeof(struct fbdev).
abbrev pub fbdev_size : ℕ
fbdev_size = 28

-- MULTIBOOT_FRAMEBUFFER_TYPE_INDEXED is 0, and MULTIBOOT_FRAMEBUFFER_TYPE_RGB is 1.
abbrev pub colors_of : FbInfo → Colors
colors_of i =
    if i.type == 0
    then palette i.palette_addr i.palette_num_colors
    else (if i.type == 1
        then fields i.red_field_position i.red_mask_size i.green_field_position i.green_mask_size
            i.blue_field_position i.blue_mask_size
        else unset)

-- The data of the file. `none`: `kmalloc` gives NULL, through which the code writes.
unfoldable pub fbdev_open : FbInfo → Devices → Option (ℕ × Devices)
fbdev_open i s = elim (kmalloc fbdev_size s.heap) [
  | none ↦ none
  | some (none, _) ↦ none
  | some (some fb, h) ↦
      let device : Device = record {
        addr = i.addr % 2 ^ 32;
        pitch = i.pitch;
        width = i.width;
        height = i.height;
        bpp = i.bpp;
        type = i.type;
        colors = colors_of i;
      } in
      some (fb, record s { heap = h; devs = λ a. if a == fb then device else s.devs a })
]

-- `none` for -1; else the call returns `sz`. The size of the frame buffer is not looked at.
unfoldable pub fbdev_read : ℕ → ℕ → ℕ → Devices → Option Devices
fbdev_read file_data buf sz s =
    if file_data == 0
    then none
    else some (record s { byte = move s.byte buf (s.devs file_data).addr sz })

unfoldable pub fbdev_write : ℕ → ℕ → ℕ → Devices → Option Devices
fbdev_write file_data buf sz s =
    if file_data == 0
    then none
    else some (record s { byte = move s.byte (s.devs file_data).addr buf sz })

-- The physical address of the region; `none` for -1, where it has no value.
unfoldable pub fbdev_mmap : ℕ → Devices → Option ℕ
fbdev_mmap file_data s = if file_data == 0 then none else some (s.devs file_data).addr

-- ===== src/Examples/Boot.antt =====
-- `init_trunix` on a boot loader's table of three entries.
use trunix.Prelude.{ℕ, ◌-◌, ◌*◌, ◌/◌, ◌%◌, ◌^◌, ◌≡◌, some, List, [], ◌∷◌, get_or, arith}
use trunix.Memmap.{Entry, entry}
use trunix.Boot.{BootInfo, boot_magic, init_trunix, read_memmap}
use trunix.Boot.Table.{IsTable, ends, next, AllLow, Reads, read_memmap-Reads}
use trunix.Boot.Map.{Booted, no_info, no_info-IsMap, init_trunix-Booted}
use trunix.Memmap.{KInfo}

-- From 0x1000 on: two available entries with a reserved one between; and the module's two addresses.
abbrev tables : List ℕ
tables =
    20 ∷ 0 ∷ 0 ∷ 0x9_fc00 ∷ 0 ∷ 1 ∷ 20 ∷ 0x9_fc00 ∷ 0 ∷ 0x400 ∷ 0 ∷ 2 ∷ 20 ∷ 0x10_0000 ∷ 0
    ∷ 0x7ee_0000 ∷ 0 ∷ 1 ∷ 0x200_0000 ∷ 0x200_5200 ∷ []

abbrev boot_byte : ℕ → ℕ
boot_byte a = get_or tables ((a - 0x1000) / 4) 0 / 2 ^ (a % 4 * 8) % 256

abbrev boot_info : BootInfo
boot_info = record {
  flags = 0x1240;
  mods_addr = 0x1048;
  mmap_length = 72;
  mmap_addr = 0x1000;
  fb_addr = 0xfd00_0000;
  fb_pitch = 4096;
  fb_height = 768;
}

abbrev regions : List Entry
regions = entry 0 0x9_fc00 1 ∷ entry 0x9_fc00 0x400 2 ∷ entry 0x10_0000 0x7ee_0000 1 ∷ []

regions-IsTable : IsTable boot_byte 0x1000 72 0 regions
regions-IsTable =
    next (omega arith) (omega arith)
      (next (omega arith) (omega arith) (next (omega arith) (omega arith) (ends (omega arith))))

regions-AllLow : AllLow regions
regions-AllLow = ((λ e. omega arith), ((λ e. omega arith), ((λ e. omega arith), tt)))

read_memmap-Reads_example :
    (k' : KInfo) × (read_memmap 19 boot_byte 0x1000 72 0 no_info ≡ some k')
    × Reads regions no_info k'
read_memmap-Reads_example =
    read_memmap-Reads boot_byte 0x1000 72 19 0 regions no_info (omega arith) regions-IsTable
      regions-AllLow no_info-IsMap (omega arith)

init_trunix-Booted_example :
    Booted regions boot_byte 0x43_2100 boot_magic boot_info
      (init_trunix boot_byte 0x43_2100 boot_magic boot_info no_info)
init_trunix-Booted_example =
    init_trunix-Booted boot_byte 0x43_2100 boot_magic boot_info regions regions-IsTable
      regions-AllLow (omega arith) (omega arith) (omega arith)

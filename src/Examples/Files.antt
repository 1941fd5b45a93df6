-- ===== src/Examples/Files.antt =====
-- A small archive, and a thread that opens a file of it.
use trunix.Prelude.{
  ℕ, ◌+◌, ◌-◌, ◌*◌, ◌<◌, ◌≡◌, refl, none, some, ◌&&◌, List, [], ◌∷◌, leb, ltb, ◌==◌, if◌then◌else◌,
  get_or, length, arith, ap,
}
use trunix.Fs.{Inode, Fs, Cdevs, v_char, oct2int, sys_open}
use trunix.Fs.Archive.{ustar, load_initrd}
use trunix.Fs.Octal.{octal, oct2int-octal}
use trunix.Fs.Open.{AllTexts, Opening, sys_open-Opening}
use trunix.Fs.Initrd.{LoadsInitrd, load_initrd-Loads}
use trunix.Block.{block}
use trunix.Pages.{Mem}
use trunix.Examples.Memory.{fresh_heap}
use trunix.Examples.Threads.{three}

abbrev console_path : List ℕ
console_path = b'/' ∷ b'd' ∷ b'e' ∷ b'v' ∷ b'/' ∷ b'c' ∷ []

abbrev init_path : List ℕ
init_path = b'/' ∷ b'i' ∷ []

abbrev device : Inode
device = record {
  uid = 0;
  gid = 0;
  mode = 0;
  major = 0;
  type = some v_char;
  size = 0;
  addr = 0;
  m_time = 0;
}

abbrev some_files : Fs
some_files = record {
  heap = fresh_heap;
  files = λ _. record { inode = 0; priv = 0 };
  dir_tbl = record { inode = 2; name = init_path } ∷ record { inode = 3; name = console_path } ∷ [];
  ino_tbl = device ∷ device ∷ [];
}

-- One driver, which leaves the file as it is.
abbrev drivers : Cdevs
drivers major = if major == 0 then some (λ f s. some s) else none

some_files-AllTexts : AllTexts some_files.dir_tbl
some_files-AllTexts = omega arith

sys_open-Opening_example :
    Opening drivers console_path
      (three 12)
      some_files
      (sys_open drivers console_path (three 12) some_files)
sys_open-Opening_example =
    sys_open-Opening drivers console_path (three 12) some_files refl (omega arith)
      some_files-AllTexts

-- Memory with a text at an address.
abbrev put : ℕ → List ℕ → (ℕ → ℕ) → ℕ → ℕ
put p text byte a = if leb p a && ltb a (p + length text) then get_or text (a - p) 0 else byte a

mode_at : (k : ℕ) → k < 6 → get_or (octal 6 420) (100 + k - 100) 0 ≡ get_or (octal 6 420) k 0
mode_at k h = ap (λ i. get_or (octal 6 420) i 0) (omega arith)

oct2int-octal_example : oct2int 6 (λ a. get_or (octal 6 420) (a - 100) 0) 100 ≡ 420
oct2int-octal_example =
    oct2int-octal 6 420 100 (λ a. get_or (octal 6 420) (a - 100) 0) (omega arith) (omega arith)
      mode_at

-- A header for an empty file, and a block of zeros.
abbrev archive : ℕ → ℕ
archive =
    put 0x80001000 (b'.' ∷ init_path)
      (put (0x80001000 + 124) (octal 11 0) (put (0x80001000 + 257) ustar (λ _. 0)))

-- The memory with the archive, and 16 pages.
abbrev archive_mem : Mem
archive_mem = record {
  freelist = block 0x8010_0000 0x8000 ∷ block 0x8020_0000 0x8000 ∷ [];
  byte = archive;
}

load_initrd-Loads_example :
    LoadsInitrd 0x1000 2 archive_mem (load_initrd 0x1000 (0x1000 + 512 * 2) archive_mem)
load_initrd-Loads_example = load_initrd-Loads 0x1000 2 archive_mem

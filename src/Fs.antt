-- ===== src/Fs.antt =====
-- kernel/fs.c: the files of the initial ram disk, and the descriptors of a thread. A file is named by
-- the address that `kmalloc` gives; `files` is the memory in which the `struct file`s stand.
pub mod Archive
pub mod Octal
pub mod Open
pub mod Initrd
use trunix.Prelude.{
  ℕ, zero, suc, ◌+◌, ◌-◌, ◌*◌, ◌%◌, ◌^◌, Option, none, some, Bool, true, false, not, List, [], ◌∷◌,
  ltb, leb, ◌==◌, if◌then◌else◌, is_some, get_or,
}
use trunix.Prelude.Int.{pos, negsuc}
use trunix.KHeap.{KHeap, kmalloc}
use trunix.Text.{strcmp}
use trunix.Sched.{ProcState, running, Proc}

abbrev pub dirsiz : ℕ
dirsiz = 128

abbrev pub root_ino : ℕ
root_ino = 2

abbrev pub max_files : ℕ
max_files = 16

pub data VType : Type 0 where
  v_file v_link v_char v_blk v_dir v_fifo : VType

-- `type` is `none` where the code does not set it. The fields that no code uses are left out.
pub record Inode : Type 0 where
  pub uid : ℕ
  pub gid : ℕ
  pub mode : ℕ
  pub major : ℕ
  pub type : Option VType
  pub size : ℕ
  pub addr : ℕ
  pub m_time : ℕ

pub record Dirent : Type 0 where
  pub inode : ℕ
  pub name : List ℕ

abbrev pub no_inode : Inode
no_inode = record {
  uid = 0;
  gid = 0;
  mode = 0;
  major = 0;
  type = none;
  size = 0;
  addr = 0;
  m_time = 0;
}

-- `inode` is the index in the table of inodes; `priv` is the field `data`, which belongs to the driver.
pub record File : Type 0 where
  pub inode : ℕ
  pub priv : ℕ

-- The tables hold the entries from `ROOT_INO` up to `ino_n`.
pub record Fs : Type 0 where
  pub heap : KHeap
  pub files : ℕ → File
  pub dir_tbl : List Dirent
  pub ino_tbl : List Inode

-- A driver's `open`, `read` or `write`, on the file at an address. A table is read by the major
-- number; `none` stands for a number past its end, and for a driver's undefined behaviour.
abbrev pub Driver : Type 0
Driver = ℕ → Fs → Option Fs

abbrev pub Cdevs : Type 0
Cdevs = ℕ → Option Driver

-- `n` is an int, as its bit pattern.
unfoldable pub oct2int_from : ℕ → (ℕ → ℕ) → ℕ → ℕ → ℕ
oct2int_from zero byte p n = n
oct2int_from (suc len) byte p n =
    let rest = oct2int_from len byte (p + 1) ((n * 8 + byte p + (2 ^ 32 - b'0')) % 2 ^ 32) in
    if byte p == 0 then n else rest

unfoldable pub oct2int : ℕ → (ℕ → ℕ) → ℕ → ℕ
unfolding oct2int_from
oct2int len byte p = oct2int_from len byte p 0

abbrev pub same_text : List ℕ → List ℕ → Bool
same_text s t = elim (strcmp s t) [ pos n ↦ n == 0 | negsuc _ ↦ false ]

-- The loop that `file_open` and `sys_open` share.
unfoldable pub find_entry : List ℕ → List Dirent → Option Dirent
find_entry path [] = none
find_entry path (d ∷ ds) = if same_text path d.name then some d else find_entry path ds

-- A `struct file` for the entry, and the driver's `open`. `none` if there is no memory for it:
-- `file_open` then fails its assertion, and `sys_open` writes through NULL.
unfoldable pub attach : Cdevs → Dirent → Fs → Option (ℕ × Fs)
attach cdevs d s = elim (kmalloc 12 s.heap) [
  | none ↦ none
  | some (none, h) ↦ none
  | some (some f, h) ↦
      let s' : Fs = record s {
        heap = h;
        files =
            λ a. if a == f then record { inode = d.inode; priv = (s.files f).priv } else s.files a;
      } in
      elim (cdevs (get_or s.ino_tbl (d.inode - root_ino) no_inode).major) [
        | none ↦ none
        | some dev_open ↦ elim (dev_open f s') [ none ↦ none | some s'' ↦ some (f, s'') ]
      ]
]

-- The address of the file, or `none` for NULL.
unfoldable pub file_open : Cdevs → List ℕ → Fs → Option (Option ℕ × Fs)
unfolding find_entry attach
file_open cdevs path s = elim (find_entry path s.dir_tbl) [
  | none ↦ some (none, s)
  | some d ↦ elim (attach cdevs d s) [ none ↦ none | some (f, s') ↦ some (some f, s') ]
]

abbrev pub is_running : ProcState → Bool
is_running running = true
is_running _ = false

-- `ofile[fd] != NULL`; behind the last descriptor lies the field `state`, and RUNNING is 0.
abbrev pub taken : Proc → ℕ → Bool
taken p fd = if ltb fd max_files then is_some (p.ofile fd) else not (is_running p.state)

-- The loop of `sys_open` on `fd`, with the rounds left; it ends at `MAXFILES`.
unfoldable pub free_fd : ℕ → Proc → ℕ → Option ℕ
free_fd zero p fd = none
free_fd (suc rounds) p fd =
    let rest = free_fd rounds p (fd + 1) in
    if taken p fd then (if leb max_files fd then none else rest) else some fd

-- What `sys_open` does: it returns -1; it returns a descriptor, and the thread has it; or it returns
-- `MAXFILES`, and has written the file's address over the thread's state.
pub data Opened : Type 0 where
  fails : Opened
  opens : ℕ → Proc → Fs → Opened
  overruns : ℕ → Fs → Opened

abbrev pub set_file : ℕ → ℕ → Proc → Proc
set_file fd f p = record p { ofile = λ i. if i == fd then some f else p.ofile i }

unfoldable pub sys_open : Cdevs → List ℕ → Proc → Fs → Option Opened
unfolding find_entry free_fd attach
sys_open cdevs path p s = elim (find_entry path s.dir_tbl) [
  | none ↦ some fails
  | some d ↦ elim (free_fd (suc max_files) p 0) [
    | none ↦ some fails
    | some fd ↦ elim (attach cdevs d s) [
      | none ↦ none
      | some (f, s') ↦
          some (if ltb fd max_files then opens fd (set_file fd f p) s' else overruns f s')
    ]
  ]
]

-- `sys_read` and `sys_write`, with the table of the drivers' functions: -1 as `some none`, and 0. The
-- outer `none` is a read past the descriptors, or what the driver does.
unfoldable pub sys_transfer : Cdevs → ℕ → Proc → Fs → Option (Option Fs)
sys_transfer cdevs fd p s =
    if ltb fd max_files
    then elim (p.ofile fd) [
      | none ↦ some none
      | some f ↦ elim (cdevs (get_or s.ino_tbl ((s.files f).inode - root_ino) no_inode).major) [
        | none ↦ none
        | some transfer ↦ elim (transfer f s) [ none ↦ none | some s' ↦ some (some s') ]
      ]
    ]
    else none

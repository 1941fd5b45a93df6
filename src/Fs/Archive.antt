-- ===== src/Fs/Archive.antt =====
-- kernel/fs.c: the archive of the initial ram disk, and what `load_initrd` reads from it.
use mathlib.Core.Option
use trunix.Prelude.{
  ℕ, zero, suc, ◌+◌, ◌-◌, ◌*◌, ◌/◌, ◌%◌, ◌^◌, Option, none, some, Bool, false, leb, ◌||◌, List, [],
  ◌∷◌, ltb, ◌==◌, if◌then◌else◌, length,
}
use trunix.Prelude.Int.{ℤ, pos}
use trunix.Round.{p2v}
use trunix.Pages.{Mem, alloc_pages}
use trunix.Text.{memcmp}
use trunix.Fs.{
  dirsiz, root_ino, VType, v_file, v_link, v_char, v_blk, v_dir, v_fifo, Inode, Dirent, oct2int,
}

-- The bytes at `p` up to a terminator, at most `n`.
unfoldable pub text_at : ℕ → (ℕ → ℕ) → ℕ → List ℕ
text_at zero byte p = []
text_at (suc n) byte p =
    let rest = byte p ∷ text_at n byte (p + 1) in if byte p == 0 then [] else rest

unfoldable pub bytes_at : ℕ → (ℕ → ℕ) → ℕ → List ℕ
bytes_at zero byte p = []
bytes_at (suc n) byte p = byte p ∷ bytes_at n byte (p + 1)

abbrev pub ustar : List ℕ
ustar = b'u' ∷ b's' ∷ b't' ∷ b'a' ∷ b'r' ∷ 0 ∷ b'0' ∷ b'0' ∷ []

abbrev is_zero : Option ℤ → Bool
is_zero (some (pos n)) = n == 0
is_zero _ = false

-- The test of `load_initrd` for a block that is a header.
unfoldable pub is_header : (ℕ → ℕ) → ℕ → Bool
unfolding memcmp bytes_at
is_header byte p = is_zero (memcmp 8 ustar (bytes_at 8 byte (p + 257)))

unfoldable pub vtype_of : ℕ → Option VType
vtype_of c =
    if (c == b'0') || (c == 0) || (c == b'1')
    then some v_file
    else (if c == b'2'
        then some v_link
        else (if c == b'3'
            then some v_char
            else (if c == b'4'
                then some v_blk
                else (if c == b'5'
                    then some v_dir
                    else (if c == b'6' then some v_fifo else none)))))

-- The inode that a header describes. Its fields are narrower than an int: 16 bits for the ids and the
-- mode.
unfoldable pub inode_of : (ℕ → ℕ) → ℕ → Inode
unfolding oct2int vtype_of
inode_of byte p = record {
  uid = oct2int 6 byte (p + 108) % 2 ^ 16;
  gid = oct2int 6 byte (p + 116) % 2 ^ 16;
  mode = oct2int 6 byte (p + 100) % 2 ^ 16;
  major = oct2int 6 byte (p + 329);
  type = vtype_of (byte (p + 156));
  size = oct2int 11 byte (p + 124);
  addr = if oct2int 11 byte (p + 124) == 0 then 0 else p + 512;
  m_time = oct2int 11 byte (p + 136);
}

-- The name at `p`, without its first character, as `strlcpy` leaves it in an entry: the terminator in
-- the magic of the header ends it at the latest. `none`: it fills the entry's `DIRSIZ` bytes, and has
-- no end.
unfoldable pub name_of : (ℕ → ℕ) → ℕ → Option (List ℕ)
unfolding text_at
name_of byte p =
    let name = text_at 262 byte (p + 1) in if ltb (length name) dirsiz then some name else none

-- sizeof(struct dirent), an index and a name; a `struct inode` is smaller.
abbrev pub dirent_size : ℕ
dirent_size = 132

-- Both tables, of which this is the size, have room for entry `i`.
abbrev pub table_size : ℕ
table_size = 0x2000

abbrev pub has_room : ℕ → Bool
has_room i = leb ((i + 1) * dirent_size) table_size

-- The loop of `load_initrd` from `p` on, with the rounds left, for the entries from `i` on. `none`: a
-- name has no end, or a table has no room for an entry, at which the code does not look.
unfoldable pub load_from : ℕ → (ℕ → ℕ) → ℕ → ℕ → ℕ → Option (List (Dirent × Inode))
unfolding is_header inode_of name_of
load_from zero byte stop p i = some []
load_from (suc rounds) byte stop p i =
    let skip = load_from rounds byte stop (p + 512) i in
    let next = load_from rounds byte stop (p + 512) (i + 1) in
    if ltb p stop
    then (if is_header byte p
        then elim (name_of byte p) [
          | none ↦ none
          | some name ↦
              if has_room i
              then Option.map (λ l. (record { inode = i; name = name }, inode_of byte p) ∷ l) next
              else none
        ]
        else skip)
    else some []

-- The addresses of the two tables, `ino_tbl` and `dir_tbl`, and their entries from `ROOT_INO` on.
pub record Tables : Type 0 where
  pub inodes : ℕ
  pub names : ℕ
  pub entries : List (Dirent × Inode)

-- `initrd_start` and `initrd_end` are physical addresses. `none`: there are no pages for a table,
-- and the code writes through NULL, or an assertion of the page allocator fails; or that of the
-- loop.
unfoldable pub load_initrd : ℕ → ℕ → Mem → Option (Tables × Mem)
unfolding load_from alloc_pages
load_initrd initrd_start initrd_end m = elim (alloc_pages table_size m) [
  | none ↦ none
  | some (none, _) ↦ none
  | some (some ino_tbl, m1) ↦ elim (alloc_pages table_size m1) [
    | none ↦ none
    | some (none, _) ↦ none
    | some (some dir_tbl, m2) ↦
        let len = initrd_end - initrd_start in
        let tar = p2v initrd_start in
        elim (load_from (len / 512 + 1) m2.byte (tar + len) tar root_ino) [
          | none ↦ none
          | some l ↦ some (record { inodes = ino_tbl; names = dir_tbl; entries = l }, m2)
        ]
  ]
]

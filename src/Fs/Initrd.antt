-- ===== src/Fs/Initrd.antt =====
-- What `load_initrd` makes of an archive.
use mathlib.Core.Option
use trunix.Prelude.{
  ℕ, zero, suc, ◌+◌, ◌-◌, ◌*◌, ◌/◌, ◌≡◌, ◌≢◌, ◌≤◌, ◌<◌, inl, inr, Option, none, some, true, false,
  List, [], ◌∷◌, ltb, if◌then◌else◌, arith, Bool-cases, Option-cases, subst, sym,
}
use trunix.Round.{p2v}
use trunix.Fs.{Inode, Dirent, root_ino}
use trunix.Pages.{Mem, alloc_pages}
use trunix.Fs.Archive.{
  is_header, inode_of, name_of, load_from, load_initrd, dirent_size, table_size, has_room, Tables,
}

-- The addresses of the headers among `n` blocks from `p` on.
abbrev pub headers : (ℕ → ℕ) → ℕ → ℕ → List ℕ
headers byte p zero = []
headers byte p (suc n) =
    let rest = headers byte (p + 512) n in if is_header byte p then p ∷ rest else rest

-- One entry for each header, in their order, numbered from `i` on.
pub data Entries (byte : ℕ → ℕ) : ℕ → List ℕ → List (Dirent × Inode) → Type 0 where
  done : {i : ℕ} → Entries byte i [] []
  entry :
      {i p : ℕ} {ps : List ℕ} {l : List (Dirent × Inode)} {name : List ℕ}
      → name_of byte p ≡ some name
      → (i + 1) * dirent_size ≤ table_size
      → Entries byte (i + 1) ps l
      → Entries byte i (p ∷ ps) ((record { inode = i; name = name }, inode_of byte p) ∷ l)

-- The name of one of the headers fills an entry.
pub data Unnamed (byte : ℕ → ℕ) : List ℕ → Type 0 where
  here : {p : ℕ} {ps : List ℕ} → name_of byte p ≡ none → Unnamed byte (p ∷ ps)
  there : {p : ℕ} {ps : List ℕ} → Unnamed byte ps → Unnamed byte (p ∷ ps)

-- The entry of one of the headers, which are numbered from `i` on, lies past the end of the table.
pub data Beyond : ℕ → List ℕ → Type 0 where
  at_once : {i p : ℕ} {ps : List ℕ} → table_size < (i + 1) * dirent_size → Beyond i (p ∷ ps)
  later : {i p : ℕ} {ps : List ℕ} → Beyond (i + 1) ps → Beyond i (p ∷ ps)

pub data Loads (byte : ℕ → ℕ) (i : ℕ) (ps : List ℕ) : Option (List (Dirent × Inode)) → Type 0 where
  loaded : {l : List (Dirent × Inode)} → Entries byte i ps l → Loads byte i ps (some l)
  unnamed : Unnamed byte ps → Loads byte i ps none
  beyond : Beyond i ps → Loads byte i ps none

Loads-more :
    (byte : ℕ → ℕ) (i p : ℕ) (ps : List ℕ) {name : List ℕ} {o : Option (List (Dirent × Inode))}
    → name_of byte p ≡ some name
    → (i + 1) * dirent_size ≤ table_size
    → Loads byte (i + 1) ps o
    → Loads byte i
        (p ∷ ps)
        (Option.map (λ l. (record { inode = i; name = name }, inode_of byte p) ∷ l) o)
Loads-more byte i p ps e fit (loaded w) = loaded (entry e fit w)
Loads-more byte i p ps e fit (unnamed m) = unnamed (there m)
Loads-more byte i p ps e fit (beyond b) = beyond (later b)

fits_of : (i : ℕ) → has_room i ≡ true → (i + 1) * dirent_size ≤ table_size
fits_of i h = ground arith

full_of : (i : ℕ) → has_room i ≡ false → table_size < (i + 1) * dirent_size
full_of i h = ground arith

load_from-Loads :
    (n : ℕ) (byte : ℕ → ℕ) (stop p i : ℕ)
    → stop ≡ p + 512 * n
    → Loads byte i (headers byte p n) (load_from (suc n) byte stop p i)
unfolding load_from
load_from-Loads zero byte stop p i e =
    let no : ltb p stop ≡ false = ground arith in rw (load_from, no) (loaded done)
load_from-Loads (suc n) byte stop p i e =
    let yes : ltb p stop ≡ true = ground arith in
    elim (Bool-cases (is_header byte p)) [
      | inl h ↦ elim (Option-cases (name_of byte p)) [
        | inl u ↦ rw (load_from, yes) (rw (h, u) (unnamed (here u)))
        | inr (name, e') ↦ elim (Bool-cases (has_room i)) [
          | inl fit ↦
              rw (load_from, yes)
                (rw (h, e', fit)
                  (Loads-more byte i p _ e' (fits_of i fit)
                    (load_from-Loads n byte stop (p + 512) (i + 1) (omega arith))))
          | inr full ↦ rw (load_from, yes) (rw (h, e', full) (beyond (at_once (full_of i full))))
        ]
      ]
      | inr h ↦ rw (load_from, yes) (rw h (load_from-Loads n byte stop (p + 512) i (omega arith)))
    ]

load_from-headers :
    (rounds n : ℕ) (byte : ℕ → ℕ) (stop p : ℕ)
    → rounds ≡ suc n
    → stop ≡ p + 512 * n
    → Loads byte root_ino (headers byte p n) (load_from rounds byte stop p root_ino)
load_from-headers rounds n byte stop p e e' =
    subst (λ r. Loads byte root_ino (headers byte p n) (load_from r byte stop p root_ino)) (sym e)
      (load_from-Loads n byte stop p root_ino e')

-- What `load_initrd` comes to on an archive of `n` blocks at `start`.
pub data LoadsInitrd (start n : ℕ) (m : Mem) : Option (Tables × Mem) → Type 0 where
  no_inodes :
      ((a : ℕ) (m1 : Mem) → alloc_pages table_size m ≢ some (some a, m1))
      → LoadsInitrd start n m none
  no_names :
      (a : ℕ) (m1 : Mem)
      → alloc_pages table_size m ≡ some (some a, m1)
      → ((b : ℕ) (m2 : Mem) → alloc_pages table_size m1 ≢ some (some b, m2))
      → LoadsInitrd start n m none
  not_loaded :
      (a b : ℕ) (m1 m2 : Mem)
      → alloc_pages table_size m ≡ some (some a, m1)
      → alloc_pages table_size m1 ≡ some (some b, m2)
      → Loads m2.byte root_ino (headers m2.byte (p2v start) n) none
      → LoadsInitrd start n m none
  tables :
      {m2 : Mem} {t : Tables} (m1 : Mem)
      → alloc_pages table_size m ≡ some (some t.inodes, m1)
      → alloc_pages table_size m1 ≡ some (some t.names, m2)
      → Entries m2.byte root_ino (headers m2.byte (p2v start) n) t.entries
      → LoadsInitrd start n m (some (t, m2))

Loads-LoadsInitrd :
    (start n a b : ℕ) (m m1 m2 : Mem) (o : Option (List (Dirent × Inode)))
    → alloc_pages table_size m ≡ some (some a, m1)
    → alloc_pages table_size m1 ≡ some (some b, m2)
    → Loads m2.byte root_ino (headers m2.byte (p2v start) n) o
    → LoadsInitrd start n m
        (elim o [ none ↦ none | some l ↦ some (record { inodes = a; names = b; entries = l }, m2) ])
Loads-LoadsInitrd start n a b m m1 m2 _ e e' (loaded w) = tables m1 e e' w
Loads-LoadsInitrd start n a b m m1 m2 _ e e' (unnamed u) = not_loaded a b m1 m2 e e' (unnamed u)
Loads-LoadsInitrd start n a b m m1 m2 _ e e' (beyond u) = not_loaded a b m1 m2 e e' (beyond u)

-- Of an archive of `n` blocks `load_initrd` makes one entry for each block with a header, in the
-- archive's order, numbered from `ROOT_INO` on, each with the name and the fields of its header, in two
-- tables of two pages. It goes wrong only if there are no pages for a table, if a header's name fills an
-- entry, or if there are more headers than a table has room for. The archive is what the memory holds
-- when the tables are allocated.
pub load_initrd-Loads :
    (start n : ℕ) (m : Mem) → LoadsInitrd start n m (load_initrd start (start + 512 * n) m)
unfolding load_initrd
load_initrd-Loads start n m = elim (Option-cases (alloc_pages table_size m)) [
  | inl e ↦ rw (load_initrd, e) (no_inodes (λ a m1 y. cc))
  | inr ((none, m0), e) ↦ rw (load_initrd, e) (no_inodes (λ a m1 y. cc))
  | inr ((some a, m1), e) ↦ elim (Option-cases (alloc_pages table_size m1)) [
    | inl e' ↦ rw (load_initrd, e) (rw e' (no_names a m1 e (λ b m2 y. cc)))
    | inr ((none, m0), e') ↦ rw (load_initrd, e) (rw e' (no_names a m1 e (λ b m2 y. cc)))
    | inr ((some b, m2), e') ↦
        rw (load_initrd, e)
          (rw e' (
            Loads-LoadsInitrd start n a b m m1 m2 _ e e' (
              load_from-headers ((start + 512 * n - start) / 512 + 1) n m2.byte
                (p2v start + (start + 512 * n - start)) (p2v start) (omega arith) (omega arith))))
  ]
]

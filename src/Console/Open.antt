-- ===== src/Console/Open.antt =====
-- drivers/video/console/console.c: `fbcon_open`. `consoles` is the memory in which the `struct console`s
-- stand, by address.
use trunix.Prelude.{ℕ, Option, none, some, List, [], ◌∷◌, ◌==◌, if◌then◌else◌}
use trunix.Pages.{Mem, alloc_pages}
use trunix.KHeap.{kmalloc}
use trunix.Fs.{Fs, Cdevs, file_open}

pub record Console : Type 0 where
  pub buf : ℕ
  pub fb : ℕ

pub record Consoles : Type 0 where
  pub fs : Fs
  pub mem : Mem
  pub consoles : ℕ → Console

-- sizeof(struct console).
abbrev pub console_size : ℕ
console_size = 8

abbrev pub dev_fb : List ℕ
dev_fb = b'/' ∷ b'd' ∷ b'e' ∷ b'v' ∷ b'/' ∷ b'f' ∷ b'b' ∷ []

abbrev pub set_data : ℕ → ℕ → Fs → Fs
set_data file a s = record s {
  files = λ f. if f == file then record (s.files file) { priv = a } else s.files f;
}

abbrev pub address_of : Option ℕ → ℕ
address_of none = 0
address_of (some a) = a

-- For the file at an address. `none`: `kmalloc` gives NULL, through which the code writes, or the frame
-- buffer cannot be opened, and an assertion fails. That there is a page for `buf` is not looked at.
unfoldable pub fbcon_open : Cdevs → ℕ → Consoles → Option Consoles
unfolding file_open
fbcon_open cdevs file s = elim (kmalloc console_size s.fs.heap) [
  | none ↦ none
  | some (none, _) ↦ none
  | some (some a, h) ↦ elim (alloc_pages 0x1000 s.mem) [
    | none ↦ none
    | some (page, m) ↦ elim (file_open cdevs dev_fb (set_data file a (record s.fs { heap = h }))) [
      | none ↦ none
      | some (none, _) ↦ none
      | some (some f, fs) ↦
          let console : Console = record { buf = address_of page; fb = (fs.files f).priv } in
          some
            (record { fs = fs; mem = m; consoles = λ c. if c == a then console else s.consoles c })
    ]
  ]
]

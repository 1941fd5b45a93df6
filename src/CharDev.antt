-- ===== src/CharDev.antt =====
-- drivers/char/mem.c: the memory files; drivers/hid/keyboard.c and kernel/kbd.h: the keyboard as a
-- file, and its key map. The arguments of a call that it does not read are left out.
use trunix.Prelude.{ℕ, ◌-◌, ◌^◌, Option, none, List, [], ◌∷◌, ltb, if◌then◌else◌, get_or}
use trunix.Prelude.Int.{ℤ, pos, negsuc}
use trunix.Pages.{fill}

-- The return of a size_t as an ssize_t.
abbrev signed_size : ℕ → ℤ
signed_size sz = if ltb sz (2 ^ 31) then pos sz else negsuc (2 ^ 32 - 1 - sz)

abbrev minus_one : ℤ
minus_one = negsuc 0

abbrev memory_open : ℤ
memory_open = pos 0

abbrev memory_close : ℤ
memory_close = minus_one

abbrev memory_read : ℤ
memory_read = minus_one

abbrev memory_write : ℤ
memory_write = pos 0

abbrev null_read : ℤ
null_read = minus_one

abbrev null_write : ℕ → ℤ
null_write sz = signed_size sz

-- With the memory that the call leaves; `buf` is an address.
abbrev zero_read : ℕ → ℕ → (ℕ → ℕ) → ℤ × (ℕ → ℕ)
zero_read buf sz byte = (signed_size sz, fill byte buf 0 sz)

abbrev zero_write : ℕ → ℤ
zero_write sz = signed_size sz

-- `none`: the function ends without a value.
abbrev kbd_open : Option ℤ
kbd_open = none

abbrev kbd_close : ℤ
kbd_close = minus_one

abbrev kbd_read : ℤ
kbd_read = minus_one

abbrev kbd_write : ℤ
kbd_write = pos 0

-- The characters by scan code; NIL is 0, and so is what the initializer leaves out.
abbrev normal_keys : List ℕ
normal_keys =
    0 ∷ 0x1B ∷ b'1' ∷ b'2' ∷ b'3' ∷ b'4' ∷ b'5' ∷ b'6' ∷ b'7' ∷ b'8' ∷ b'9' ∷ b'0' ∷ b'-' ∷ b'=' ∷ 8
    ∷ 9 ∷ b'q' ∷ b'w' ∷ b'e' ∷ b'r' ∷ b't' ∷ b'y' ∷ b'u' ∷ b'i' ∷ b'o' ∷ b'p' ∷ b'{' ∷ b'}' ∷ 10 ∷ 0
    ∷ b'a' ∷ b's' ∷ b'd' ∷ b'f' ∷ b'g' ∷ b'h' ∷ b'j' ∷ b'k' ∷ b'l' ∷ b';' ∷ 39 ∷ b'`' ∷ 0 ∷ 92
    ∷ b'z' ∷ b'x' ∷ b'c' ∷ b'v' ∷ b'b' ∷ b'n' ∷ b'm' ∷ b',' ∷ b'.' ∷ b'/' ∷ 0 ∷ b'*' ∷ 0 ∷ b' ' ∷ 0
    ∷ 0 ∷ 0 ∷ 0 ∷ 0 ∷ 0 ∷ 0 ∷ 0 ∷ 0 ∷ 0 ∷ 0 ∷ 0 ∷ 0 ∷ b'7' ∷ b'8' ∷ b'9' ∷ b'-' ∷ b'4' ∷ b'5' ∷ b'6'
    ∷ b'+' ∷ b'1' ∷ b'2' ∷ b'3' ∷ b'0' ∷ b'.' ∷ 0 ∷ 0 ∷ 0 ∷ 0 ∷ []

abbrev normalmap : ℕ → ℕ
normalmap code = get_or normal_keys code 0

-- ===== src/Userspace.antt =====
-- userspace/userspace.c: the string functions over the bytes of a program's memory. A loop has
-- fuel; `none` is a loop that has not ended. A pointer past the last address is undefined in C.
pub mod Strings
pub mod Print
pub mod Calls
pub mod Monitor
mod Tests
use cat_os_micro_kernel.Common.{
  ℕ, zero, suc, ◌+◌, ◌-◌, ◌*◌, ◌/◌, ◌%◌, ◌^◌, Bool, true, false, not, ◌&&◌, update, u32, sub32, ltb,
  ◌==◌, if◌then◌else◌, Option, none, some,
}

-- The byte at each address.
abbrev pub Bytes : Type 0
Bytes = ℕ → ℕ

unfoldable pub strlen : ℕ → Bytes → ℕ → Option ℕ
strlen zero mem str = none
strlen (suc fuel) mem str =
    let rest = strlen fuel mem (str + 1) in
    if mem str == 0 then some 0 else elim rest [ none ↦ none | some len ↦ some (u32 (len + 1)) ]

-- `while ((*d++ = *src++))`
unfoldable pub copy : ℕ → ℕ → ℕ → Bytes → Option Bytes
copy zero d src mem = none
copy (suc fuel) d src mem =
    let written = update mem d (mem src) in
    let rest = copy fuel (d + 1) (src + 1) written in if mem src == 0 then some written else rest

unfoldable pub strcpy : ℕ → ℕ → ℕ → Bytes → Option Bytes
strcpy fuel dest src mem = copy fuel dest src mem

-- `while (*d) d++`
unfoldable pub find_end : ℕ → ℕ → Bytes → Option ℕ
find_end zero d mem = none
find_end (suc fuel) d mem =
    let rest = find_end fuel (d + 1) mem in if mem d == 0 then some d else rest

unfoldable pub strcat : ℕ → ℕ → ℕ → Bytes → Option Bytes
strcat fuel dest src mem = elim (find_end fuel dest mem) [
  | none ↦ none
  | some d ↦ copy fuel d src mem
]

-- `(int)c` for a signed char, as a 32-bit word.
unfoldable pub sign_extend : ℕ → ℕ
sign_extend c = if ltb c 128 then c else c + (2 ^ 32 - 256)

unfoldable pub strcmp : ℕ → ℕ → ℕ → Bytes → Option ℕ
strcmp zero str1 str2 mem = none
strcmp (suc fuel) str1 str2 mem =
    let rest = strcmp fuel (str1 + 1) (str2 + 1) mem in
    if not (mem str1 == 0) && mem str1 == mem str2
    then rest
    else some (sub32 (sign_extend (mem str1)) (sign_extend (mem str2)))

unfoldable pub memset : (size ptr value : ℕ) → Bytes → Bytes
memset zero ptr value mem = mem
memset (suc size) ptr value mem = memset size (ptr + 1) value (update mem ptr (value % 256))

unfoldable pub memcpy : (size dest src : ℕ) → Bytes → Bytes
memcpy zero dest src mem = mem
memcpy (suc size) dest src mem = memcpy size (dest + 1) (src + 1) (update mem dest (mem src))

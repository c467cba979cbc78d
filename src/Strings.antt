-- ===== src/Strings.antt =====
-- include/string.h: the loops over strings and over bytes of memory. A string in memory ends at
-- its NUL; memory gives the byte at each address.
pub mod Laws
pub mod Tests
use zeptux.Base.{ℕ, zero, suc, ◌+◌, ◌==◌, ◌||◌, Option, some, none, if◌then◌else◌}
use zeptux.Elf.{Bytes}

unfoldable pub store_byte : Bytes → ℕ → ℕ → Bytes
store_byte mem address value a = if address == a then value else mem a

-- The characters at which the loop of `strcmp` ends, on fuel. Their difference is the result.
unfoldable pub strcmp : ℕ → Bytes → ℕ → ℕ → Option (ℕ × ℕ)
strcmp zero mem a b = none
strcmp (suc fuel) mem a b =
    let rest = strcmp fuel mem (a + 1) (b + 1) in
    if (mem a == 0) || (mem b == 0)
    then some (mem a, mem b)
    else if mem a == mem b
    then rest
    else some (mem a, mem b)

-- The rounds left.
unfoldable pub memset_from : ℕ → Bytes → ℕ → ℕ → Bytes
memset_from zero mem target chr = mem
memset_from (suc left) mem target chr =
    memset_from left (store_byte mem target chr) (target + 1) chr

unfoldable pub memcpy : ℕ → Bytes → ℕ → ℕ → Bytes
memcpy zero mem dest src = mem
memcpy (suc left) mem dest src = memcpy left (store_byte mem dest (mem src)) (dest + 1) (src + 1)

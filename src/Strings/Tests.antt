-- ===== src/Strings/Tests.antt =====
-- The theorems on memory at concrete values.
use zeptux.Base.{zero, suc, ◌+◌, ◌-◌, ◌&&◌, ◌≡◌, inr, ltb, leb, if◌then◌else◌, arith}
use zeptux.Elf.{Bytes}
use zeptux.Strings.{memcpy}
use zeptux.Strings.Laws.{memcpy_lem}

-- "ab" at 0, "ac" at 10.
abbrev bytes : Bytes
bytes zero = b'a'
bytes (suc zero) = b'b'
bytes (suc (suc n)) = if leb 8 n && ltb n 9 then b'a' else if leb 9 n && ltb n 10 then b'c' else 0

memcpy_lem_example :
    memcpy 3 bytes 20 10 21
    ≡ (if leb 20 21 && ltb 21 (20 + 3) then bytes (10 + (21 - 20)) else bytes 21)
memcpy_lem_example = memcpy_lem 3 bytes 20 10 21 (inr (omega arith))

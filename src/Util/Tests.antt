-- ===== src/Util/Tests.antt =====
-- The theorems on bytes and roots, at overlapping ranges and at small numbers.
use solstice_os.Base.{◌+◌, ◌≡◌, refl}
use solstice_os.Util.Bytes.{Bytes, memset, memcpy, memmove, copy_backward, memset_lem}

abbrev ramp : Bytes
ramp a = a + 10

memset_lem_example : memset 4 0 3 ramp 5 ≡ 0
memset_lem_example = memset_lem 4 0 3 ramp 5

-- `memcpy` on the same ranges repeats its first bytes.
memcpy_overlap : memcpy 6 4 5 ramp 10 ≡ 14
unfolding memcpy
memcpy_overlap = refl

memmove_overlap : memmove 6 4 5 ramp 10 ≡ 18
unfolding memmove copy_backward
memmove_overlap = refl

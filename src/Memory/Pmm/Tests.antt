-- ===== src/Memory/Pmm/Tests.antt =====
-- The theorems on the page allocator, at small memories.
use solstice_os.Base.{ℕ, ◌≡◌, refl, List, [], ◌∷◌, arith, if◌then◌else◌, ◌==◌}
use solstice_os.Memory.Pmm.{Pmm, MemMapDescriptor, init_pmm}
use solstice_os.Memory.Pmm.Chain.{IsFree}
use solstice_os.Memory.Pmm.Init.{usable, init_pmm-IsFree}

abbrev empty : Pmm
empty = record { mem = λ a. 0; head = 0; total = 0 }

abbrev two : Pmm
two = record { mem = λ a. if a == 0x200000 then 0x201000 else 0; head = 0x200000; total = 2 }

abbrev two_frames : List ℕ
two_frames = 0x200000 ∷ 0x201000 ∷ []

empty-IsFree : IsFree empty []
empty-IsFree = ground arith

two-IsFree : IsFree two two_frames
two-IsFree = ground arith

-- A boot region of two pages that ends at 2 MB, a usable one that starts a page below, and one
-- of another type.
abbrev desc_at : ℕ → MemMapDescriptor
desc_at a =
    if a == 0x80000
    then record { type = 7; physical_start = 0x1ff000; number_of_pages = 3 }
    else record { type = 4; physical_start = 0x400000; number_of_pages = 8 }

usable_runs : usable desc_at 40 2 0 ≡ 0x200000 ∷ 0x201000 ∷ []
usable_runs = refl

init_pmm-IsFree_example : IsFree (init_pmm desc_at 80 40 empty) (0x201000 ∷ 0x200000 ∷ [])
init_pmm-IsFree_example =
    init_pmm-IsFree desc_at 80 40 empty empty-IsFree (omega arith) (ground arith) (omega arith)

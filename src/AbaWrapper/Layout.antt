-- ===== src/AbaWrapper/Layout.antt =====
-- The constants and the size checks of src/concurrentfw/aba_wrapper.hpp, with the platform constants
-- of src/concurrentfw/helper.hpp and src/concurrentfw/atomic_asm_dwcas_llsc.hpp. Sizes are in bytes.
use concurrentfw.Prelude.{
  ℕ, ◌*◌, ◌≡◌, ◌↔◌, ◌⊎◌, Bool, true, false, ◌&&◌, ◌||◌, ltb, leb, ◌==◌, if◌then◌else◌, arith,
}

pub data PlatformWidth : Type 0 where
  width_32 width_64 : PlatformWidth

pub data PlatformAbaSolution : Type 0 where
  dwcas llsc : PlatformAbaSolution

-- the processors that the preprocessor tells apart
pub data Architecture : Type 0 where
  x86_64 i686 aarch64 arm : Architecture

unfoldable pub platform_width : Architecture → PlatformWidth
platform_width x86_64 = width_64
platform_width aarch64 = width_64
platform_width i686 = width_32
platform_width arm = width_32

-- what the included header defines: ATOMIC_DWCAS_NEEDED or ATOMIC_LLSC_NEEDED
unfoldable pub platform_aba_solution : Architecture → PlatformAbaSolution
platform_aba_solution x86_64 = dwcas
platform_aba_solution i686 = dwcas
platform_aba_solution aarch64 = llsc
platform_aba_solution arm = llsc

abbrev pub is_64 : PlatformWidth → Bool
is_64 width_64 = true
is_64 width_32 = false

abbrev pub is_dwcas : PlatformAbaSolution → Bool
is_dwcas dwcas = true
is_dwcas llsc = false

unfoldable pub max_data_size : Architecture → ℕ
unfolding platform_width
max_data_size a = if is_64 (platform_width a) then 8 else 4

unfoldable pub array_size : Architecture → ℕ
unfolding platform_aba_solution
array_size a = if is_dwcas (platform_aba_solution a) then 2 else 1

unfoldable pub atomic_alignment : Architecture → ℕ → ℕ
unfolding array_size platform_width
atomic_alignment a size = array_size a * (if is_64 (platform_width a) && ltb 4 size then 8 else 4)

-- `sizeof(Atomic_ABA_BaseType<T>)`
unfoldable pub base_type_size : Architecture → ℕ → ℕ
unfolding platform_width
base_type_size a size = if is_64 (platform_width a) && ltb 4 size then 8 else 4

-- The `static_assert`s on sizeof(T).
unfoldable pub admitted : Architecture → ℕ → Bool
unfolding max_data_size
admitted a size =
    leb size (max_data_size a) && leb 4 size && ((size == 4) || (size == max_data_size a))

-- The words beside each other in a wrapper, on each processor.
abbrev pub words : Architecture → ℕ
words x86_64 = 2
words i686 = 2
words aarch64 = 1
words arm = 1

-- The size checks admit a `T` just where it has 4 bytes, or 8 on x86-64 or AArch64; it has as many
-- bytes as its base type then, as the last of the checks wants, and the wrapper is aligned to its own
-- length, which is that of two words on x86 and of one word on ARM.
pub admitted_lem :
    (a : Architecture) (size : ℕ)
    → (admitted a size ≡ true) ↔ (
        ((size ≡ 4) ⊎ ((size ≡ 8) × ((a ≡ x86_64) ⊎ (a ≡ aarch64))))
        × (base_type_size a size ≡ size)
        × (atomic_alignment a size ≡ words a * size))
unfolding admitted base_type_size atomic_alignment
admitted_lem x86_64 size = ground arith
admitted_lem i686 size = ground arith
admitted_lem aarch64 size = ground arith
admitted_lem arm size = ground arith

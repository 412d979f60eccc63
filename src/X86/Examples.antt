-- ===== src/X86/Examples.antt =====
-- The double-word operations in assembly at concrete words, those of src/tests/test_x86_asm.cpp.
use concurrentfw.Prelude.{◌+◌, ◌*◌, ◌^◌, ◌≡◌, some, [], ◌∷◌, arith}
use concurrentfw.AbaWrapper.{Content, content}
use concurrentfw.AbaWrapper.Dwcas.{dw_cas}
use concurrentfw.X86.{
  Registers, slow_dw_store, fast_dw_store, atomic_dw_cas, dw_store_i686, dw_cas_32, narrow_dw_load,
  narrow_dw_store,
}
use concurrentfw.X86.Wide.{dw_store_lem, atomic_dw_cas-eq-dw_cas}
use concurrentfw.X86.Narrow.{narrow_dw_load-narrow_dw_store}

abbrev wide : Content
wide = content 0xDEADBEEF01234567 0x1CEDCAFE89ABCDEF

abbrev stored : Content
stored = content 0x0123456789ABCDEF 0xFEDCBA9876543210

abbrev scratch_pair : Content
scratch_pair = content 3 4

abbrev scratch : Registers
scratch = record { ax = 1; dx = 2; bx = 3; cx = 4 }

dw_store_lem_example :
    (slow_dw_store (content 7 0) stored ((λ c. content 9 c.value) ∷ []) (content 7 8) ≡ some stored)
    × (fast_dw_store stored (content 7 8) ≡ stored)
    × (dw_store_i686 (content 7 0) stored ((λ c. content 9 c.value) ∷ []) (content 7 8)
        ≡ some stored)
dw_store_lem_example =
    dw_store_lem (content 7 0) stored ((λ c. content 9 c.value) ∷ []) (content 7 8)

atomic_dw_cas-eq-dw_cas_example :
    (atomic_dw_cas wide stored scratch_pair ≡ dw_cas wide stored scratch_pair)
    × (dw_cas_32 wide stored scratch_pair ≡ dw_cas wide stored scratch_pair)
atomic_dw_cas-eq-dw_cas_example = atomic_dw_cas-eq-dw_cas wide stored scratch_pair

narrow_dw_load-narrow_dw_store_example :
    (narrow_dw_store 5 6 (content 0x89ABCDEF 0xFEDCBA98) ≡ 0xFEDCBA98 * 2 ^ 32 + 0x89ABCDEF)
    × (narrow_dw_load 7 (narrow_dw_store 5 6 (content 0x89ABCDEF 0xFEDCBA98))
        ≡ content 0x89ABCDEF 0xFEDCBA98)
narrow_dw_load-narrow_dw_store_example =
    narrow_dw_load-narrow_dw_store 7 5 6 (content 0x89ABCDEF 0xFEDCBA98) (omega arith) (omega arith)

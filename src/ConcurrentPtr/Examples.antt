-- ===== src/ConcurrentPtr/Examples.antt =====
-- `Concurrent_Ptr` at concrete inputs, those of src/tests/test_concurrent_ptr.cpp.
use concurrentfw.Prelude.{◌≡◌, refl, some, [], ◌∷◌}
use concurrentfw.AbaWrapper.{content}
use concurrentfw.AbaWrapper.Layout.{dwcas}
use concurrentfw.ConcurrentPtr.{construct, set}
use concurrentfw.ConcurrentPtr.Laws.{set_all}

-- Three pointers are set; the counter starts at 1.
three_set :
    set_all 64 dwcas (0x1000 ∷ 0x2000 ∷ 0x3000 ∷ []) (construct dwcas 0) ≡ some (content 0x3000 4)
unfolding set_all set construct
three_set = refl

-- ===== src/AbaWrapper/Examples.antt =====
-- `ABA_Wrapper` at concrete inputs.
use concurrentfw.Prelude.{
  ℕ, ◌+◌, ◌*◌, ◌≡◌, refl, ◌↔◌, ◌⊎◌, true, false, Option, none, some, [], ◌∷◌, ◌==◌, if◌then◌else◌,
}
use concurrentfw.AbaWrapper.{Content, content}
use concurrentfw.AbaWrapper.Dwcas
use concurrentfw.AbaWrapper.Lockfree
use concurrentfw.AbaWrapper.Llsc
use concurrentfw.AbaWrapper.Llsc.{stored_by_other, cleared}
use concurrentfw.AbaWrapper.Layout.{
  x86_64, aarch64, words, base_type_size, atomic_alignment, admitted, admitted_lem,
}

abbrev add_one : ℕ → Option ℕ
add_one x = if x == 9 then none else some (x + 1)

-- Another thread stores a value and puts the old one back, with two changes of the counter.
abbrev aba : Content → Content
aba c = content c.value (c.counter + 2)

retried : Dwcas.modify 64 add_one (aba ∷ []) (content 5 1) ≡ some (content 6 4, true)
unfolding Dwcas.modify
retried = refl

dwcas_modify-Effect_example :
    Lockfree.Effect 64 add_one
      (aba ∷ [])
      (content 5 1)
      (Dwcas.modify 64 add_one (aba ∷ []) (content 5 1))
dwcas_modify-Effect_example = Lockfree.dwcas_modify-Effect 64 add_one (aba ∷ []) (content 5 1)

-- With the monitor the store of the same value is noticed too.
retried_llsc :
    Llsc.modify add_one (stored_by_other 5 ∷ cleared ∷ []) (record { memory = 5; reserved = false })
    ≡ some (record { memory = 6; reserved = false }, true)
unfolding Llsc.modify
retried_llsc = refl

llsc_modify-Effect_example : Llsc.Effect add_one (stored_by_other 5 ∷ cleared ∷ []) 5 (
    Llsc.modify add_one
      (stored_by_other 5 ∷ cleared ∷ [])
      (record { memory = 5; reserved = false }))
llsc_modify-Effect_example =
    Llsc.llsc_modify-Effect add_one (stored_by_other 5 ∷ cleared ∷ [])
      (record { memory = 5; reserved = false })

admitted_lem_example : (admitted x86_64 8 ≡ true) ↔ (
    ((◌≡◌ {A = ℕ} 8 4) ⊎ ((◌≡◌ {A = ℕ} 8 8) × ((x86_64 ≡ x86_64) ⊎ (x86_64 ≡ aarch64))))
    × (base_type_size x86_64 8 ≡ 8)
    × (atomic_alignment x86_64 8 ≡ words x86_64 * 8))
admitted_lem_example = admitted_lem x86_64 8

-- The wrapper that `Stack` has on a 64-bit platform.
admitted_pointer : admitted x86_64 8 ≡ true
unfolding admitted
admitted_pointer = refl

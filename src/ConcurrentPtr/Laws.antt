-- ===== src/ConcurrentPtr/Laws.antt =====
-- What `set` of src/concurrentfw/concurrent_ptr.hpp leaves for `get` and `get_counter`.
use native.Mathlib.Nat.{mod-add-mod}
use concurrentfw.Prelude.{
  ℕ, suc, ◌+◌, ◌%◌, ◌^◌, ◌≡◌, ◌∙◌, ap, refl, Bool, true, false, Option, none, some, List, [], ◌∷◌,
  arith, length,
}
use concurrentfw.AbaWrapper.{Content}
use concurrentfw.AbaWrapper.Dwcas.{next}
use concurrentfw.AbaWrapper.Lockfree
use concurrentfw.AbaWrapper.Llsc
use concurrentfw.Arm.{Monitor}
use concurrentfw.AbaWrapper.Layout.{PlatformAbaSolution, dwcas, llsc}
use concurrentfw.ConcurrentPtr.{ConcurrentPtr, Environment, set, get, get_counter}

dwcas_stores :
    (w ptr : ℕ) {env : List (Content → Content)} {m : Content} {r : Option (Content × Bool)}
    → Lockfree.Effect w (λ _. some ptr) env m r
    → (c : Content) × (r ≡ some (c, true)) × (c.value ≡ ptr)
unfolding next
dwcas_stores w ptr (Lockfree.Effect.stores {c} new seen e unchanged) =
    (next w c new, refl, ground arith)
dwcas_stores w ptr (Lockfree.Effect.declines seen e) = absurd (cc)

llsc_stores :
    (ptr v : ℕ) {env : List Llsc.Meanwhile} {r : Option (Monitor ℕ × Bool)}
    → Llsc.Effect (λ _. some ptr) env v r
    → (c : Monitor ℕ) × (r ≡ some (c, true)) × (c.memory ≡ ptr)
llsc_stores ptr v (Llsc.Effect.stores new held e q) =
    (record { memory = new; reserved = false }, refl, ground arith)
llsc_stores ptr v (Llsc.Effect.declines held e) = absurd (cc)

-- On both kinds of platform, and whatever other threads do during the call, `set` returns with the
-- pointer stored.
pub get-set :
    (w : ℕ) (p : PlatformAbaSolution) (ptr : ℕ) (env : Environment p) (c : ConcurrentPtr p)
    → (c' : ConcurrentPtr p) × (set w p ptr env c ≡ some (c', true)) × (get p c' ≡ ptr)
unfolding set get
get-set w dwcas ptr env c =
    dwcas_stores w ptr (Lockfree.dwcas_modify-Effect w (λ _. some ptr) env c)
get-set w llsc ptr env c = llsc_stores ptr c.memory (Llsc.llsc_modify-Effect (λ _. some ptr) env c)

abbrev pub quiet_environment : (p : PlatformAbaSolution) → Environment p
quiet_environment dwcas = []
quiet_environment llsc = []

-- The pointers set one after the other, by a thread that is alone.
unfoldable pub set_all :
    (w : ℕ) (p : PlatformAbaSolution) → List ℕ → ConcurrentPtr p → Option (ConcurrentPtr p)
set_all w p [] c = some c
set_all w p (x ∷ xs) c = elim (set w p x (quiet_environment p) c) [
  | none ↦ none
  | some (c', done) ↦ set_all w p xs c'
]

-- The counter after some changes, where there is one.
abbrev pub counter_after : (w : ℕ) (p : PlatformAbaSolution) → ConcurrentPtr p → ℕ → ℕ
counter_after w dwcas c n = (c.counter + n) % 2 ^ w
counter_after w llsc c n = 0

-- the last of the pointers `x ∷ xs`
unfoldable pub last_of : ℕ → List ℕ → ℕ
last_of x [] = x
last_of x (y ∷ ys) = last_of y ys

record SetQuietly (w : ℕ) (p : PlatformAbaSolution) (x : ℕ) (c c' : ConcurrentPtr p) : Type 0 where
  returns : set w p x (quiet_environment p) c ≡ some (c', true)
  stored : get p c' ≡ x
  counts : get_counter p c' ≡ counter_after w p c 1
  goes_on : (n : ℕ) → counter_after w p c' n ≡ counter_after w p c (suc n)

one_more : (a m n : ℕ) → ((a + 1) % m + n) % m ≡ (a + suc n) % m
one_more a m n =
    let e : a + 1 + n ≡ a + suc n = omega arith in mod-add-mod (a + 1) m n ∙ ap (λ (t : ℕ). t % m) e

set_quiet :
    (w : ℕ) (p : PlatformAbaSolution) (x : ℕ) (c : ConcurrentPtr p)
    → (c' : ConcurrentPtr p) × SetQuietly w p x c c'
unfolding set get get_counter next
set_quiet w dwcas x c = (
  next w c x,
  record {
    returns = ground arith;
    stored = refl;
    counts = refl;
    goes_on = one_more c.counter (2 ^ w);
  },
)
set_quiet w llsc x c = (
  record { memory = x; reserved = false },
  record { returns = refl; stored = refl; counts = refl; goes_on = λ n. refl },
)

set_all-cons :
    (w : ℕ) (p : PlatformAbaSolution) (x : ℕ) (xs : List ℕ) (c : ConcurrentPtr p)
    {c' : ConcurrentPtr p}
    → set w p x (quiet_environment p) c ≡ some (c', true)
    → set_all w p (x ∷ xs) c ≡ set_all w p xs c'
unfolding set_all
set_all-cons w p x xs c h = ground arith

-- A thread that is alone sets any number of pointers, one at least: `get` then returns the last of
-- them, and the counter has grown by one for each, modulo its width, where the platform has one.
pub set_all_lem :
    (w : ℕ) (p : PlatformAbaSolution) (x : ℕ) (xs : List ℕ) (c : ConcurrentPtr p)
    → (c' : ConcurrentPtr p) × (set_all w p (x ∷ xs) c ≡ some c')
      × (get p c' ≡ last_of x xs)
      × (get_counter p c' ≡ counter_after w p c (length (x ∷ xs)))
unfolding set_all last_of
set_all_lem w p x [] c =
    let (c', one) = set_quiet w p x c in
    (c', set_all-cons w p x [] c one.returns, one.stored, one.counts)
set_all_lem w p x (y ∷ ys) c =
    let (c1, one) = set_quiet w p x c in
    let (c', all, stored, counts) = set_all_lem w p y ys c1 in
    (
      c',
      set_all-cons w p x (y ∷ ys) c one.returns ∙ all,
      stored,
      counts ∙ one.goes_on (length (y ∷ ys)),
    )

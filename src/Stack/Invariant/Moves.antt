-- ===== src/Stack/Invariant/Moves.antt =====
-- The kinds of access that keep the invariant of the class `Stack` (src/stack.cpp).
use concurrentfw.Prelude.{
  ℕ, ◌+◌, ◌≡◌, ◌≢◌, true, Option, none, some, List, update, update_self, update_ne, has, arith,
  ℕ_discrete,
}
use concurrentfw.AbaWrapper.{Content}
use concurrentfw.Stack.{Block, null, Memory, Pc, idle}
use concurrentfw.Stack.Chain.{Chain, Chain-update, Chain-top}
use concurrentfw.Stack.Invariant.{Local, Holds}
use concurrentfw.Stack.Invariant.Frames.{Local-stack, Local-owner, Local-link}

module _ {m : Memory} {owner : Block → Option ℕ} {pc : ℕ → Pc} {changes : ℕ} {xs : List Block}
    (inv : Holds m owner pc changes xs) (i : ℕ) where
  open inv use {counted, chain, unowned, local}

  -- What is known of thread `i` at its new place, and of the others, is known of all.
  each :
      (P : ℕ → Pc → Type 0) (p' : Pc)
      → P i p'
      → ((j : ℕ) → i ≢ j → P j (pc j))
      → (j : ℕ) → P j (update pc i p' j)
  each P p' own others j = elim (ℕ_discrete i j) [
    | yes e ↦ rw (← e) (rw (update_self pc i p') own)
    | no ne ↦ rw (update_ne pc i j p' ne) (others j ne)
  ]

  -- Memory and ownership stay as they are.
  pub quiet-Holds :
      (p' : Pc) → Local m.link m.stack owner i p' → Holds m owner (update pc i p') changes xs
  quiet-Holds p' l = record {
    counted = counted;
    chain = chain;
    unowned = unowned;
    local = each (Local m.link m.stack owner) p' l (λ j ne. local j);
  }

  -- The top block is owned by nobody.
  top_unowned : m.stack.value ≢ null → owner m.stack.value ≡ none
  top_unowned ne =
      let (ys, xs_is, below, new) = Chain-top chain ne in
      unowned m.stack.value (rw xs_is (ground arith))

  -- The thread writes to the first word of a block that it owns.
  pub write-Holds :
      (b : Block) (word : ℕ) (p' : Pc)
      → owner b ≡ some i
      → Local (update m.link b word) m.stack owner i p'
      → Holds (record m { link = update m.link b word }) owner (update pc i p') changes xs
  write-Holds b word p' own l = record {
    counted = counted;
    chain = Chain-update b word chain (ground (arith, unowned b));
    unowned = unowned;
    local = each (Local (update m.link b word) m.stack owner) p' l (λ j ne.
        Local-link m.link m.stack owner j b word (pc j) (ground arith)
          (λ n e. ground (arith, top_unowned n)) (local j));
  }

  -- The thread changes the stack, and the block `b` changes hands.
  pub change-Holds :
      (stack' : Content) (b : Block) (o : Option ℕ) (p' : Pc) (ys : List Block)
      → stack'.counter ≡ m.stack.counter + 1
      → Chain m.link stack'.value ys
      → ((d : Block) → has d ys ≡ true → update owner b o d ≡ none)
      → ((j : ℕ) → i ≢ j → owner b ≢ some j)
      → Local m.link stack' (update owner b o) i p'
      → Holds (record m { stack = stack' }) (update owner b o) (update pc i p') (changes + 1) ys
  change-Holds stack' b o p' ys next chain' unowned' mine l = record {
    counted = omega arith;
    chain = chain';
    unowned = unowned';
    local = each (Local m.link stack' (update owner b o)) p' l (λ j ne.
        Local-owner m.link stack' owner j b o (pc j) (mine j ne)
          (Local-stack m.link m.stack owner j stack' (pc j) (omega arith) (local j)));
  }

  -- An idle thread keeps its place, and its locals say nothing.
  stays :
      (link : Block → ℕ) (owner' : Block → Option ℕ)
      → pc i ≡ idle
      → ((j : ℕ) → i ≢ j → Local link m.stack owner' j (pc j))
      → (j : ℕ) → Local link m.stack owner' j (pc j)
  stays link owner' e others j = elim (ℕ_discrete i j) [
    | yes eq ↦ rw (← eq, e) tt
    | no ne ↦ others j ne
  ]

  -- An idle thread gives a block away.
  pub give-Holds :
      (b : Block) (k : ℕ)
      → owner b ≡ some i
      → pc i ≡ idle
      → Holds m (update owner b (some k)) pc changes xs
  give-Holds b k own e = record {
    counted = counted;
    chain = chain;
    unowned = λ d h. ground (arith, unowned d);
    local =
        stays m.link (update owner b (some k)) e
          (λ j ne. Local-owner m.link m.stack owner j b (some k) (pc j) (ground arith) (local j));
  }

  -- An idle thread writes to a block that it owns.
  pub use-Holds :
      (b : Block) (word : ℕ)
      → owner b ≡ some i
      → pc i ≡ idle
      → Holds (record m { link = update m.link b word }) owner pc changes xs
  use-Holds b word own e = record {
    counted = counted;
    chain = Chain-update b word chain (ground (arith, unowned b));
    unowned = unowned;
    local = stays (update m.link b word) owner e (λ j ne.
        Local-link m.link m.stack owner j b word (pc j) (ground arith)
          (λ n e. ground (arith, top_unowned n)) (local j));
  }

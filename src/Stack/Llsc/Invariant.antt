-- ===== src/Stack/Llsc/Invariant.antt =====
-- What holds of the class `Stack` (src/stack.cpp) on a platform with LLSC, and what keeps it.
use concurrentfw.Prelude.{
  ℕ, ◌≡◌, ◌≢◌, Bool, true, false, Option, none, some, List, update, update_self, update_ne, has,
  arith, ℕ_discrete,
}
use concurrentfw.Stack.{Block, null}
use concurrentfw.Stack.Chain.{Chain, Chain-update, Chain-top}
use concurrentfw.Stack.Llsc.{
  Memory, Pc, idle, push_start, push_cached, push_linked, pop_start, pop_cached, pop_read, rejected,
}

-- What the locals of thread `i` say about the shared memory: a cached top is the present one as long
-- as the monitor is set.
abbrev pub Local : (Block → ℕ) → ℕ → Bool → (Block → Option ℕ) → ℕ → Pc → Type 0
Local link top set owner i (push_start b) = (b ≢ null) × (owner b ≡ some i)
Local link top set owner i (push_cached b c) =
    (b ≢ null) × (owner b ≡ some i) × (set ≡ true → c ≡ top)
Local link top set owner i (push_linked b c) =
    (b ≢ null) × (owner b ≡ some i) × (set ≡ true → c ≡ top) × (link b ≡ c)
Local link top set owner i (pop_cached c) = (c ≢ null) × (set ≡ true → c ≡ top)
Local link top set owner i (pop_read c below) =
    (c ≢ null) × (set ≡ true → c ≡ top) × (set ≡ true → link c ≡ below)
Local link top set owner i _ = Unit

-- The stack holds the blocks `xs`, top first, and nobody owns one of them.
pub record Holds (m : Memory) (owner : Block → Option ℕ) (pc : ℕ → Pc) (xs : List Block)
    : Type 0 where
  pub chain : Chain m.link m.stack xs
  pub unowned : (b : Block) → has b xs ≡ true → owner b ≡ none
  pub local : (i : ℕ) → Local m.link m.stack (m.reserved i) owner i (pc i)

module _ (link : Block → ℕ) (top : ℕ) (set : Bool) (owner : Block → Option ℕ) (j : ℕ) where
  -- A monitor that is cleared says nothing.
  Local-cleared :
      (top' : ℕ) (p : Pc) → Local link top set owner j p → Local link top' false owner j p
  Local-cleared top' idle l = tt
  Local-cleared top' (push_start b) l = l
  Local-cleared top' (push_cached b c) l = ground arith
  Local-cleared top' (push_linked b c) l = ground arith
  Local-cleared top' pop_start l = tt
  Local-cleared top' (pop_cached c) l = ground arith
  Local-cleared top' (pop_read c below) l = ground arith
  Local-cleared top' rejected l = tt

  -- A block that the thread does not own has changed hands.
  Local-owner :
      (b : Block) (o : Option ℕ) (p : Pc)
      → owner b ≢ some j
      → Local link top set owner j p
      → Local link top set (update owner b o) j p
  Local-owner b o idle ne l = tt
  Local-owner b o (push_start d) ne l = ground arith
  Local-owner b o (push_cached d c) ne l = ground arith
  Local-owner b o (push_linked d c) ne l = ground arith
  Local-owner b o pop_start ne l = tt
  Local-owner b o (pop_cached c) ne l = l
  Local-owner b o (pop_read c below) ne l = l
  Local-owner b o rejected ne l = tt

  -- A block that the thread does not own, and that is not on top, has been written to.
  Local-link :
      (b : Block) (word : ℕ) (p : Pc)
      → owner b ≢ some j
      → (top ≢ null → b ≢ top)
      → Local link top set owner j p
      → Local (update link b word) top set owner j p
  Local-link b word idle ne under l = tt
  Local-link b word (push_start d) ne under l = l
  Local-link b word (push_cached d c) ne under l = l
  Local-link b word (push_linked d c) ne under l = ground arith
  Local-link b word pop_start ne under l = tt
  Local-link b word (pop_cached c) ne under l = l
  Local-link b word (pop_read c below) ne under l = ground arith
  Local-link b word rejected ne under l = tt

module _ {m : Memory} {owner : Block → Option ℕ} {pc : ℕ → Pc} {xs : List Block}
    (inv : Holds m owner pc xs) (i : ℕ) where
  open inv use {chain, unowned, local}

  each :
      (P : ℕ → Pc → Type 0) (p' : Pc)
      → P i p'
      → ((j : ℕ) → i ≢ j → P j (pc j))
      → (j : ℕ) → P j (update pc i p' j)
  each P p' own others j = elim (ℕ_discrete i j) [
    | yes e ↦ rw (← e) (rw (update_self pc i p') own)
    | no ne ↦ rw (update_ne pc i j p' ne) (others j ne)
  ]

  -- Memory and ownership stay as they are.
  pub quiet-Holds :
      (p' : Pc) → Local m.link m.stack (m.reserved i) owner i p' → Holds m owner (update pc i p') xs
  quiet-Holds p' l = record {
    chain = chain;
    unowned = unowned;
    local = each (λ j p. Local m.link m.stack (m.reserved j) owner j p) p' l (λ j ne. local j);
  }

  -- The monitor of the thread changes.
  pub keep-Holds :
      (set : Bool) (p' : Pc)
      → Local m.link m.stack set owner i p'
      → Holds (record m { reserved = update m.reserved i set }) owner (update pc i p') xs
  keep-Holds set p' l = record {
    chain = chain;
    unowned = unowned;
    local =
        each (λ j p. Local m.link m.stack (update m.reserved i set j) owner j p) p'
          (rw (update_self m.reserved i set) l)
          (λ j ne. rw (update_ne m.reserved i j set ne) (local j));
  }

  pub clear-Holds : Holds (record m { reserved = update m.reserved i false }) owner pc xs
  clear-Holds = record {
    chain = chain;
    unowned = unowned;
    local = λ j. elim (ℕ_discrete i j) [
      | yes e ↦ rw (← e) (
          rw (update_self m.reserved i false)
            (Local-cleared m.link m.stack (m.reserved i) owner i m.stack (pc i) (local i)))
      | no ne ↦ rw (update_ne m.reserved i j false ne) (local j)
    ];
  }

  -- The top block is owned by nobody.
  top_unowned : m.stack ≢ null → owner m.stack ≡ none
  top_unowned ne =
      let (ys, xs_is, below, new) = Chain-top chain ne in unowned m.stack (rw xs_is (ground arith))

  other_link :
      (b : Block) (word : ℕ)
      → owner b ≡ some i
      → (j : ℕ) → i ≢ j
      → Local (update m.link b word) m.stack (m.reserved j) owner j (pc j)
  other_link b word own j ne =
      Local-link m.link m.stack (m.reserved j) owner j b word (pc j) (ground arith)
        (λ n e. ground (arith, top_unowned n)) (local j)

  -- The thread writes to the first word of a block that it owns.
  pub write-Holds :
      (b : Block) (word : ℕ) (p' : Pc)
      → owner b ≡ some i
      → Local (update m.link b word) m.stack (m.reserved i) owner i p'
      → Holds (record m { link = update m.link b word }) owner (update pc i p') xs
  write-Holds b word p' own l = record {
    chain = Chain-update b word chain (ground (arith, unowned b));
    unowned = unowned;
    local =
        each (λ j p. Local (update m.link b word) m.stack (m.reserved j) owner j p) p' l
          (other_link b word own);
  }

  -- The thread changes the stack, which clears all monitors, and the block `b` changes hands.
  pub change-Holds :
      (top' : ℕ) (b : Block) (o : Option ℕ) (p' : Pc) (ys : List Block)
      → Chain m.link top' ys
      → ((d : Block) → has d ys ≡ true → update owner b o d ≡ none)
      → ((j : ℕ) → i ≢ j → owner b ≢ some j)
      → Local m.link top' false (update owner b o) i p'
      → Holds
          (record m { stack = top'; reserved = λ _. false })
          (update owner b o)
          (update pc i p')
          ys
  change-Holds top' b o p' ys chain' unowned' mine l = record {
    chain = chain';
    unowned = unowned';
    local = each (Local m.link top' false (update owner b o)) p' l (λ j ne.
        Local-owner m.link top' false owner j b o (pc j) (mine j ne)
          (Local-cleared m.link m.stack (m.reserved j) owner j top' (pc j) (local j)));
  }

  stays :
      (link : Block → ℕ) (owner' : Block → Option ℕ)
      → pc i ≡ idle
      → ((j : ℕ) → i ≢ j → Local link m.stack (m.reserved j) owner' j (pc j))
      → (j : ℕ) → Local link m.stack (m.reserved j) owner' j (pc j)
  stays link owner' e others j = elim (ℕ_discrete i j) [
    | yes eq ↦ rw (← eq, e) tt
    | no ne ↦ others j ne
  ]

  -- An idle thread gives a block away.
  pub give-Holds :
      (b : Block) (k : ℕ) → owner b ≡ some i → pc i ≡ idle → Holds m (update owner b (some k)) pc xs
  give-Holds b k own e = record {
    chain = chain;
    unowned = λ d h. ground (arith, unowned d);
    local = stays m.link (update owner b (some k)) e (λ j ne.
        Local-owner m.link m.stack (m.reserved j) owner j b (some k) (pc j) (ground arith)
          (local j));
  }

  -- An idle thread writes to a block that it owns.
  pub use-Holds :
      (b : Block) (word : ℕ)
      → owner b ≡ some i
      → pc i ≡ idle
      → Holds (record m { link = update m.link b word }) owner pc xs
  use-Holds b word own e = record {
    chain = Chain-update b word chain (ground (arith, unowned b));
    unowned = unowned;
    local = stays (update m.link b word) owner e (other_link b word own);
  }

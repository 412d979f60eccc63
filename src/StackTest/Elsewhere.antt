-- ===== src/StackTest/Elsewhere.antt =====
-- An access to one stack of src/tests/test_stack.cpp, as it is for the stack itself and for the others.
use concurrentfw.Prelude.{
  ℕ, zero, suc, ◌+◌, ◌^◌, ◌<◌, ◌≡◌, refl, sym, ap, ◌∙◌, ◌≢◌, ◌⊎◌, inl, inr, true, Option, some,
  List, has, update, update_self, update_ne, arith, ℕ_discrete, subst,
}
use concurrentfw.AbaWrapper.{Content}
use concurrentfw.Stack.{Block, Memory, Pc, idle, Event, silent, pushed, popped, found_empty, run}
use concurrentfw.Stack.Chain.{Chain-distinct}
use concurrentfw.Stack.System.{System, tally}
use concurrentfw.Stack.Invariant.{Holds, Local}
use concurrentfw.Stack.Invariant.Moves.{use-Holds, give-Holds}
use concurrentfw.Stack.Invariant.Accesses.{Spec, goes}
use concurrentfw.Stack.Ownership.{is_free, settle-is_free}
use concurrentfw.StackTest.{
  held, on, Worker, Bench, stack_of, memory_of, settle_place, accessed, after, after_push,
}
use concurrentfw.StackTest.Views.{
  owner_of, owners, pc_for, pcs, Kept, settle-owners, pcs-update, pcs-quiet, pc_for-idle,
  pc_for-away, pc_for-here, parts-Kept, owners-update,
}
use concurrentfw.StackTest.Events.{
  silent_or_idle, run-link, run-pushed, Before, owner-held, owner-on,
}

module _ (w threads : ℕ) (s : Bench) (i m : ℕ) (at_m : stack_of i (s.worker i) ≡ m) where
  abbrev made : Memory × Pc × Event
  made = run w (memory_of s m) (s.worker i).pc

  abbrev pub next_worker : Worker
  next_worker = after threads made.2 (record (s.worker i) { pc = made.1 })

  after-pc : (e : Event) (v : Worker) → (after threads e v).pc ≡ v.pc
  unfolding after after_push
  after-pc e v = ground arith

  -- The thread's place, as stack `n` sees it after the access.
  pc_after : (n : ℕ) → (pc_for n i next_worker ≡ idle) ⊎ (made.2 ≡ silent)
  pc_after n = elim (silent_or_idle w (memory_of s m) (s.worker i).pc) [
    | inl quiet ↦ inr quiet
    | inr ended ↦ inl (
        pc_for-idle n i next_worker (after-pc made.2 (record (s.worker i) { pc = made.1 }) ∙ ended))
  ]

  silent_worker : made.2 ≡ silent → next_worker ≡ record (s.worker i) { pc = made.1 }
  unfolding after
  silent_worker e = ap (λ e. after threads e (record (s.worker i) { pc = made.1 })) e

  pc_after-here : pc_for m i next_worker ≡ made.1
  pc_after-here = elim (silent_or_idle w (memory_of s m) (s.worker i).pc) [
    | inl quiet ↦
        ap (pc_for m i) (silent_worker quiet)
        ∙ pc_for-here m i (record (s.worker i) { pc = made.1 }) at_m
    | inr ended ↦
        pc_for-idle m i next_worker (after-pc made.2 (record (s.worker i) { pc = made.1 }) ∙ ended)
        ∙ sym ended
  ]

  pc_after-away : (n : ℕ) → m ≢ n → pc_for n i next_worker ≡ idle
  pc_after-away n ne = elim (pc_after n) [
    | inl ended ↦ ended
    | inr quiet ↦
        ap (pc_for n i) (silent_worker quiet)
        ∙ pc_for-away n i (record (s.worker i) { pc = made.1 }) (λ e. ne (sym at_m ∙ e))
  ]

  module _ (kept : Kept s m) where
    open kept use {blocks, holds, free}

    view : System
    view = record {
      memory = memory_of s m;
      pc = pcs m s.worker;
      owner = owners m s.place;
      changes = s.changes m;
    }

    pub here-Local : Local s.link (s.stack m) (owners m s.place) (suc i) (s.worker i).pc
    here-Local =
        subst (Local s.link (s.stack m) (owners m s.place) (suc i))
          (pc_for-here m i (s.worker i) at_m) (holds.local (suc i))

    -- For its own stack it is an access of `Stack`.
    pub here-Kept :
        tally made.2 (s.changes m) + 1 < 2 ^ w
        → Kept (accessed w threads s i m made) m × Before i m s.place made.2
    unfolding view
    here-Kept bound =
        let (ys, after_it, spec) =
          goes w {s = view} holds (suc i) (s.worker i).pc (pc_for-here m i (s.worker i) at_m)
            here-Local bound in
        (
          parts-Kept m (accessed w threads s i m made) after_it
              (ap (λ (c : Content). record { link = made.0.link; stack = c })
                (sym (update_self s.stack m made.0.stack)))
              (settle-owners m i made.2 s.place)
              (subst
                (λ p. update (pcs m s.worker) (suc i) p ≡ pcs m (update s.worker i next_worker))
                pc_after-here (pcs-update m s.worker i next_worker))
              (sym (update_self s.changes m (tally made.2 (s.changes m))))
              (λ b.
                settle-is_free (suc i) made.2 (owners m s.place) blocks ys b spec
                  (Chain-distinct holds.chain) (free b)),
          before made.2 ys refl spec,
        )
      where
        before :
            (e : Event) (ys : List Block) → made.2 ≡ e → Spec blocks e ys → Before i m s.place e
        before silent ys is spec = tt
        before found_empty ys is spec = tt
        before (pushed b) ys is spec = owner-held m i (s.place b) (
            run-pushed w (memory_of s m) (owners m s.place) (suc i) (s.worker i).pc b here-Local is)
        before (popped b) ys is spec =
            let on_it : has b blocks ≡ true = rw spec (ground arith) in
            owner-on m (s.place b) (holds.unowned b on_it)

    module _ (n : ℕ) (ne : m ≢ n) (other : Kept s n) (known : Before i m s.place made.2) where
      idle_there : pcs n s.worker (suc i) ≡ idle
      idle_there = pc_for-away n i (s.worker i) (λ e. ne (sym at_m ∙ e))

      away-parts :
          {link' : Block → ℕ} {owner' : Block → Option ℕ}
          → Holds
              (record { link = link'; stack = s.stack n })
              owner'
              (pcs n s.worker)
              (s.changes n)
              other.blocks
          → link' ≡ made.0.link
          → owner' ≡ owners n (settle_place i m made.2 s.place)
          → ((b : Block) → has b other.blocks ≡ is_free (owner' b))
          → Kept (accessed w threads s i m made) n
      away-parts {link'} {owner'} holds' link_is owner_is free' =
          parts-Kept n (accessed w threads s i m made) holds'
            (ap (λ (l : Block → ℕ). record { link = l; stack = s.stack n }) link_is
              ∙ ap (λ (c : Content). record { link = made.0.link; stack = c })
                  (sym (update_ne s.stack m n made.0.stack ne)))
            owner_is
            (sym (pcs-quiet n s.worker i next_worker (pc_after-away n ne ∙ sym idle_there)))
            (sym (update_ne s.changes m n (tally made.2 (s.changes m)) ne)) free'

      settled :
          (e : Event)
          → made.2 ≡ e
          → owners n (settle_place i m e s.place) ≡ owners n (settle_place i m made.2 s.place)
      settled e is = ap (λ e. owners n (settle_place i m e s.place)) (sym is)

      on_other : owner_of n (on m) ≡ some 0
      on_other = ground arith

      -- A block that is not on the other stack changes hands.
      given-free :
          (b : Block) (o k : ℕ)
          → owners n s.place b ≡ some o
          → (d : Block) → has d other.blocks ≡ is_free (update (owners n s.place) b (some k) d)
      given-free b o k own d = elim (ℕ_discrete b d) [
        | yes e ↦
            rw (← e, update_self (owners n s.place) b (some k)) (other.free b ∙ ap is_free own)
        | no apart ↦ rw (update_ne (owners n s.place) b d (some k) apart) (other.free d)
      ]

      -- The block of the event changes hands outside the other stack.
      by_event :
          (e : Event)
          → made.2 ≡ e
          → Before i m s.place e
          → s.link ≡ made.0.link
          → Kept (accessed w threads s i m made) n
      by_event silent is _ link_is = away-parts other.holds link_is (settled silent is) other.free
      by_event found_empty is _ link_is =
          away-parts other.holds link_is (settled found_empty is) other.free
      by_event (pushed b) is was link_is =
          let own : owners n s.place b ≡ some (suc i) = ap (owner_of n) was in
          away-parts (give-Holds other.holds (suc i) b 0 own idle_there) link_is
            (ap (update (owners n s.place) b) (sym on_other)
              ∙ owners-update n s.place b (on m)
              ∙ settled (pushed b) is)
            (given-free b (suc i) 0 own)
      by_event (popped b) is was link_is =
          let own : owners n s.place b ≡ some 0 = ap (owner_of n) was ∙ on_other in
          away-parts (give-Holds other.holds zero b (suc i) own refl) link_is
            (owners-update n s.place b (held i) ∙ settled (popped b) is)
            (given-free b 0 (suc i) own)

      -- For another stack it is at most a use or a hand-over of a block.
      pub away-Kept : Kept (accessed w threads s i m made) n
      away-Kept =
          elim (run-link w (memory_of s m) (owners m s.place) (suc i) (s.worker i).pc here-Local) [
            | inl same_link ↦ by_event made.2 refl known (sym same_link)
            | inr (b, word, link_is, own, quiet) ↦
                let own_there = ap (owner_of n) (owner-held m i (s.place b) own) in
                away-parts (use-Holds other.holds (suc i) b word own_there idle_there) (sym link_is)
                  (settled silent quiet) other.free
          ]

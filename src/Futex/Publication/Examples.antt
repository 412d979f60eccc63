-- ===== src/Futex/Publication/Examples.antt =====
-- The theorems on what the owner of the futex sees, at a run of two threads (src/futex.cpp).
use concurrentfw.Prelude.{◌<◌, ◌≡◌, refl, inl, true, false, arith, ℕ_discrete}
use concurrentfw.Atomic.Views.{Standard, cpp17, cpp20, carried}
use concurrentfw.Futex.{lock, owner, failed, eintr, run, after_wait}
use concurrentfw.Futex.Kernel.Waiters.{waiters_kernel}
use concurrentfw.Futex.System.{System, init, call, access, wait_blocks, wait_ends}
use concurrentfw.Futex.Publication.{
  Views, at_start, observe, effect, wake_order, Reach, start, moves, touches,
}
use concurrentfw.Futex.Publication.Visible.{owner_sees}
use concurrentfw.Futex.Publication.Stale.{stale_owner}

record Run (std : Standard) : Type 1 where
  state : System waiters_kernel
  views : Views
  reach : Reach std wake_order false state views

-- Thread 0 owns the futex and has written; thread 1 has called `lock`, has blocked, and a signal
-- has ended its wait.
interrupted : (std : Standard) → Run std
unfolding run init ℕ_discrete observe at_start effect
interrupted std = record {
  state = _;
  views = _;
  reach =
      moves
        (moves
          (moves
            (moves
              (moves (touches (moves (moves start (call 0 lock refl)) (access 0)) 0 refl)
                (call 1 lock refl))
              (access 1))
            (access 1))
          (wait_blocks 1 lock refl (refl, refl)))
        (wait_ends 1 lock {a = failed eintr} refl (refl, λ free. cc));
}

-- Thread 0 unlocks the futex, and thread 1 takes it.
taken_over : Run cpp17
unfolding interrupted
taken_over = record {
  state = _;
  views = _;
  reach = moves (moves (moves (interrupted cpp17).reach (access 0)) (access 0)) (access 1);
}

owner_sees_example : (taken_over.views.thread 1).current 0 ≡ true
unfolding taken_over after_wait
owner_sees_example = owner_sees (inl refl) taken_over.reach 1 refl 0 (omega arith)

stale_owner_example :
    (t : System waiters_kernel) × (v : Views) × Reach cpp20 wake_order false t v
    × (0 < v.writes)
    × (t.pc 1 ≡ owner)
    × ((v.thread 1).current 0 ≡ false)
unfolding interrupted after_wait carried
stale_owner_example =
    stale_owner (interrupted cpp20).reach 0 1 lock refl refl refl 0 (omega arith) refl

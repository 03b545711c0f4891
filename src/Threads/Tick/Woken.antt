-- ===== src/Threads/Tick/Woken.antt =====
-- What the loop over the sleepers of `kmt_preemptive_intr_handler` needs and leaves,
-- c-kernel/syscore/mt/kernel.c.
use pentinum_os.Base.{
  ℕ, ◌<◌, ◌≡◌, ◌≢◌, Bool, true, false, not, ◌&&◌, ◌||◌, List, ◌++◌, ◌==◌, leb, ltb, has,
}
use pentinum_os.Threads.State.{Kmt, ready, is_nil}
use pentinum_os.Threads.Sleep.{SleepRequest}
use pentinum_os.Threads.Sleep.Order.{IsSleepHeap}
use pentinum_os.Threads.Sleep.Queue.{requests}
use pentinum_os.Threads.Ready.Inv.{TailFits}
use pentinum_os.Threads.Tick.{is_due}

-- The request wants the thread woken by now.
abbrev pub due_for : ℕ → ℕ → SleepRequest → Bool
due_for now id r = leb r.wakeup_time now && (r.thread_id == id)

-- The requests of a kind that are not due yet.
abbrev pub later : ℕ → (SleepRequest → Bool) → SleepRequest → Bool
later now q r = ltb now r.wakeup_time && q r

abbrev pub unknown : ℕ → SleepRequest → Bool
unknown n r = leb n r.thread_id

-- An ordered sleep heap whose threads exist, with priorities that have a queue, and queues with fitting
-- tails.
pub record IsAsleep (s : Kmt) : Type 0 where
  pub heap : IsSleepHeap s.sleep
  pub known : requests (unknown s.thread_count) s.sleep ≡ 0
  pub places : (id : ℕ) → (s.tcb_pool id).priority < 31
  pub tails : (p : ℕ) → p < 31 → TailFits (s.ready_queues p).items (s.ready_queues p).tail

-- A thread that is ready, and otherwise as it was, on the queue of its priority, whose bit is set.
abbrev pub IsWoken : Kmt → Kmt → ℕ → Type 0
IsWoken s s' id =
    (s'.tcb_pool id ≡ record (s.tcb_pool id) { status = ready })
    × (has id (s'.ready_queues (s.tcb_pool id).priority).items ≡ true)
    × (s'.ready_priority_bitmap (s.tcb_pool id).priority ≡ true)

-- The queue of the priority `p` gains due threads of that priority at its end, and its bit is set if it
-- gains any.
abbrev pub Gains : Kmt → Kmt → ℕ → ℕ → Type 0
Gains s s' now p =
    (added : List ℕ) × ((s'.ready_queues p).items ≡ (s.ready_queues p).items ++ added)
    × (s'.ready_priority_bitmap p ≡ (s.ready_priority_bitmap p || not (is_nil added)))
    × ((id : ℕ)
        → has id added ≡ true
        → (requests (due_for now id) s.sleep ≢ 0) × ((s.tcb_pool id).priority ≡ p))

-- What the loop over the sleepers does: no due request is left and the later ones are kept, the threads
-- of the due ones are woken, the queues gain no others, and all other threads are as they were.
pub record Woke (s s' : Kmt) (now : ℕ) : Type 0 where
  pub heap : IsSleepHeap s'.sleep
  pub settled : is_due s'.sleep now ≡ false
  pub kept :
      (q : SleepRequest → Bool) → requests (later now q) s'.sleep ≡ requests (later now q) s.sleep
  pub due : (id : ℕ) → requests (due_for now id) s.sleep ≢ 0 → IsWoken s s' id
  pub gains : (p : ℕ) → p < 31 → Gains s s' now p
  pub others : (id : ℕ) → requests (due_for now id) s.sleep ≡ 0 → s'.tcb_pool id ≡ s.tcb_pool id
  pub current : s'.current_thread ≡ s.current_thread

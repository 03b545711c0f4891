-- ===== src/Threads/Tick.antt =====
-- The timer interrupt of c-kernel/syscore/mt/kernel.c, `kmt_preemptive_intr_handler`: it wakes the
-- threads whose time has come, ages those that are ready, and schedules. The loops take fuel and return
-- `none` when it runs out.
pub mod Age
pub mod Due
pub mod Round
pub mod Woken
use pentinum_os.Base.{
  ℕ, zero, suc, ◌+◌, ◌%◌, ◌^◌, Bool, true, false, not, ◌&&◌, List, [], ◌∷◌, Option, none, some,
  ◌==◌, ltb, leb, if◌then◌else◌, update, get_elem?,
}
use pentinum_os.Threads.State.{
  Kmt, Tcb, Queue, Tail, null, last, stray, Run, done, panic, fault, on_success, set_status,
  status_of, ready, idle, esuccess, is_nil,
}
use pentinum_os.Threads.Sleep.{SleepHeap, kmt_pop_sleep_heap, time}
use pentinum_os.Threads.Ready.{kmt_wakeup_thread, kmt_schedule, queue_count}

abbrev pub age_ticks : ℕ
age_ticks = 4

abbrev pub is_due : SleepHeap → ℕ → Bool
is_due h now = ltb 0 h.sleep_heap_size && leb (time h.sleep_heap 0) now

-- The thread at the root of the sleep heap is taken off and woken.
unfoldable pub wake_root : Kmt → Run
wake_root s =
    let id = (s.sleep.sleep_heap 0).thread_id in
    kmt_wakeup_thread (set_status (record s { sleep = kmt_pop_sleep_heap s.sleep }) id idle) id

-- The loop over the sleeping threads, with at most `fuel` rounds.
unfoldable pub wake_due : ℕ → Kmt → ℕ → Option Run
wake_due zero s now = none
wake_due (suc fuel) s now = elim (is_due s.sleep now) [
  | false ↦ some (done esuccess s)
  | true ↦ elim (wake_root s) [
    | done zero s' ↦ wake_due fuel s' now
    | done (suc e) s' ↦ some panic
    | panic ↦ some panic
    | fault ↦ some fault
  ]
]

-- A queue without the node at index `k`: without its last node the tail pointer is left behind.
abbrev pub without : List ℕ → ℕ → List ℕ
without [] k = []
without (x ∷ xs) zero = xs
without (x ∷ xs) (suc k) = x ∷ without xs k

abbrev pub is_last : List ℕ → ℕ → Bool
is_last [] k = false
is_last (x ∷ xs) zero = is_nil xs
is_last (x ∷ xs) (suc k) = is_last xs k

abbrev pub unlink_at : Queue → ℕ → Queue
unlink_at q k = record {
  items = without q.items k;
  tail = if is_last q.items k then stray else q.tail;
}

-- A thread that has aged enough goes up by one priority, and its node is unlinked from queue `p`.
unfoldable pub raised : Kmt → ℕ → ℕ → ℕ → Kmt
raised s p k id =
    let t = s.tcb_pool id in
    let up = suc t.priority % 256 in
    record s {
      tcb_pool =
          update s.tcb_pool id
            (record t { age = 0; priority = if leb 31 up then 30 else up; status = idle });
      ready_queues = update s.ready_queues p (unlink_at (s.ready_queues p) k);
    }

abbrev pub promote : Kmt → ℕ → ℕ → ℕ → Run
promote s p k id = kmt_wakeup_thread (raised s p k id) id

abbrev pub older : Kmt → ℕ → Kmt
older s id = record s {
  tcb_pool =
      update s.tcb_pool id (record (s.tcb_pool id) { age = suc (s.tcb_pool id).age % 2 ^ 32 });
}

-- `prev_node = node; node = node->next`, at the node that is given: a pointer is the index of its node
-- in the queue, or `none` for null.
abbrev pub advance : (Option ℕ → ℕ → Option Run) → Option ℕ → Option Run
advance walk none = some fault
advance walk (some node) = walk (some node) (suc node)

-- The walk over queue `p`, from the node at index `node` on, which is null behind the end. After a
-- promotion `node` is set to `prev_node`.
unfoldable pub age_queue : ℕ → Kmt → ℕ → Option ℕ → ℕ → Option Run
age_queue zero s p prev_node node = none
age_queue (suc fuel) s p prev_node node = elim (get_elem? (s.ready_queues p).items node) [
  | none ↦ some (done esuccess s)
  | some id ↦ elim (leb age_ticks ((older s id).tcb_pool id).age) [
    | false ↦ advance (λ prev next. age_queue fuel (older s id) p prev next) (some node)
    | true ↦ elim (promote (older s id) p node id) [
      | done zero s' ↦ advance (λ prev next. age_queue fuel s' p prev next) prev_node
      | done (suc e) s' ↦ some panic
      | panic ↦ some panic
      | fault ↦ some fault
    ]
  ]
]

-- The queues of the bits below `n` of the copied bitmap, from the highest down to 1.
unfoldable pub age_queues : ℕ → Kmt → (ℕ → Bool) → ℕ → Option Run
age_queues fuel s bits zero = some (done esuccess s)
age_queues fuel s bits (suc n) = elim (n == 0) [
  | true ↦ some (done esuccess s)
  | false ↦ elim (bits n) [
    | false ↦ age_queues fuel s bits n
    | true ↦ elim (leb queue_count n) [
      | true ↦ some fault
      | false ↦ elim (age_queue fuel s n none 0) [
        | some (done zero s') ↦ age_queues fuel s' bits n
        | some (done (suc e) s') ↦ some panic
        | some panic ↦ some panic
        | some fault ↦ some fault
        | none ↦ none
      ]
    ]
  ]
]

abbrev pub then_schedule : Option Run → Option Run
then_schedule none = none
then_schedule (some r) = some (on_success r (λ s. kmt_schedule s ready))

abbrev pub then_age : ℕ → Option Run → Option Run
then_age fuel none = none
then_age fuel (some (done e s)) = then_schedule (age_queues fuel s s.ready_priority_bitmap 32)
then_age fuel (some panic) = some panic
then_age fuel (some fault) = some fault

-- `current_time` is the time since boot in milliseconds.
unfoldable pub kmt_preemptive_intr_handler : ℕ → Kmt → ℕ → Option Run
kmt_preemptive_intr_handler fuel s current_time =
    if not s.preemption
    then some (done esuccess s)
    else then_age fuel (wake_due fuel s current_time)

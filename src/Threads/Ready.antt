-- ===== src/Threads/Ready.antt =====
-- The ready queues of c-kernel/syscore/mt/kernel.c: `kmt_wakeup_thread`, `kmt_schedule` and what only
-- calls them. The switch of stacks, `kmt_switch_task`, is assembly: a call of `kmt_schedule` ends here
-- with the state in which the next thread goes on.
pub mod Inv
pub mod Wake
pub mod Pick
pub mod Schedule
pub mod Retire
use pentinum_os.Base.{
  ℕ, zero, suc, Bool, true, false, not, ◌||◌, List, [], ◌∷◌, Option, none, some, ◌==◌, ltb, leb,
  if◌then◌else◌, update,
}
use pentinum_os.Threads.State.{
  Kmt, Tcb, Queue, Run, done, panic, fault, on_success, kmt_queue_push, kmt_queue_pop,
  kmt_queue_is_empty, set_status, status_of, terminated, ready, running, idle, esuccess, einval,
}

abbrev pub eterminated : ℕ
eterminated = 0x40

abbrev pub queue_count : ℕ
queue_count = 31

-- The last step of `kmt_wakeup_thread`: a priority that has no queue is outside the table.
unfoldable pub enqueue : Kmt → ℕ → Run
enqueue s id =
    let priority = (s.tcb_pool id).priority in
    if leb queue_count priority
    then fault
    else done esuccess (
        set_status
          (record s {
            ready_queues =
                update s.ready_queues priority (kmt_queue_push (s.ready_queues priority) id);
            ready_priority_bitmap = update s.ready_priority_bitmap priority true;
          })
          id ready)

unfoldable pub kmt_wakeup_thread : Kmt → ℕ → Run
kmt_wakeup_thread s id =
    if leb s.thread_count id
    then done einval s
    else if status_of s id == ready
    then done esuccess s
    else if status_of s id == running
    then done esuccess s
    else if status_of s id == terminated
    then done eterminated s
    else enqueue s id

-- `31 - __builtin_clz(bitmap)`: the highest of the first `n` bits that is set.
unfoldable pub highest : (ℕ → Bool) → ℕ → Option ℕ
highest bits zero = none
highest bits (suc n) = if bits n then some n else highest bits n

-- The current thread gives up the processor.
unfoldable pub retire : Kmt → ℕ → Run
retire s new_status =
    let cur = s.current_thread in
    if status_of s cur == terminated
    then done esuccess s
    else if new_status == ready
    then kmt_wakeup_thread
        (record s {
          tcb_pool = update s.tcb_pool cur (record (s.tcb_pool cur) {
            status = idle;
            age = 0;
            priority = (s.tcb_pool cur).base_priority;
          });
        })
        cur
    else done esuccess (set_status s cur new_status)

-- The thread at the head of the queue goes on, if it is ready.
unfoldable pub take_from : Kmt → ℕ → Run
take_from s p = elim (kmt_queue_pop (s.ready_queues p)) [
  | none ↦ fault
  | some (next, rest) ↦
      if not (status_of s next == ready)
      then panic
      else done esuccess (
          set_status
            (record s {
              ready_queues = update s.ready_queues p rest;
              ready_priority_bitmap =
                  if kmt_queue_is_empty rest
                  then update s.ready_priority_bitmap p false
                  else s.ready_priority_bitmap;
              current_thread = next;
            })
            next running)
]

unfoldable pub pick : Kmt → Run
pick s = elim (highest s.ready_priority_bitmap 32) [
  | none ↦ panic
  | some p ↦ if leb queue_count p then fault else take_from s p
]

unfoldable pub kmt_schedule : Kmt → ℕ → Run
kmt_schedule s new_status = on_success (retire s new_status) pick

-- What a thread does to give up the processor until it is woken, and for good.
unfoldable pub kmt_sleep : Kmt → Run
kmt_sleep s = kmt_schedule s idle

unfoldable pub kmt_kill_current_thread : Kmt → Run
kmt_kill_current_thread s = kmt_schedule (set_status s s.current_thread terminated) 0

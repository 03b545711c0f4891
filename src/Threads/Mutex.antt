-- ===== src/Threads/Mutex.antt =====
-- The mutexes of c-kernel/syscore/mt/kernel.c.
pub mod Create
pub mod Own
use pentinum_os.Base.{
  ℕ, zero, suc, Bool, true, false, not, List, [], ◌∷◌, Option, none, some, ◌==◌, ltb, leb,
  if◌then◌else◌, update, bit_or,
}
use pentinum_os.Threads.State.{
  Kmt, Mutex, Queue, Run, done, panic, fault, on_success, empty_queue, kmt_queue_push,
  kmt_queue_is_empty, set_status, status_of, terminated, idle, idle_mutex, esuccess, einval,
  invalid_u16, Tail, null,
}
use pentinum_os.Threads.Ready.{kmt_wakeup_thread, kmt_schedule}

abbrev pub max_mutexes : ℕ
max_mutexes = 1024

abbrev pub mutex_free : ℕ
mutex_free = 0x0

abbrev pub mutex_used : ℕ
mutex_used = 0x1

abbrev pub einuse : ℕ
einuse = 0x41

abbrev pub eusefreed : ℕ
eusefreed = 0x42

abbrev pub enotowned : ℕ
enotowned = 0x43

-- `0x8000 | EPOOLFULL`
abbrev pub pool_full : ℕ
pool_full = 0x8013

abbrev pub set_mutex : Kmt → ℕ → Mutex → Kmt
set_mutex s m x = record s { mutex_pool = update s.mutex_pool m x }

-- The first free mutex among the `n` from index `i` on.
unfoldable pub find_free : Kmt → ℕ → ℕ → Option ℕ
find_free s i zero = none
find_free s i (suc n) =
    if (s.mutex_pool i).flags == mutex_free then some i else find_free s (suc i) n

abbrev pub open_mutex : Kmt → ℕ → Kmt
open_mutex s m =
    set_mutex s m (record { flags = mutex_used; owner = invalid_u16; waiting = empty_queue })

abbrev pub reuse : Kmt → Option ℕ → ℕ × Kmt
reuse s none = (pool_full, s)
reuse s (some m) = (m, open_mutex s m)

-- The identifier of the mutex, or an error with the highest bit set, and the new state.
unfoldable pub kmt_create_mutex : Kmt → ℕ × Kmt
kmt_create_mutex s =
    let count = s.alloc_mutex_count in
    if leb max_mutexes count
    then reuse s (find_free s 0 max_mutexes)
    else (count, open_mutex (record s { alloc_mutex_count = suc count }) count)

-- How a call that may wait goes on: it returns, or it gives up the processor, and the caller looks
-- again once it runs.
pub data Call : Type 0 where
  returned : Run → Call
  switched : Run → Call

-- A round of the loop that waits for the ownership.
unfoldable pub lock_wait : Kmt → ℕ → Call
lock_wait s m =
    if (s.mutex_pool m).owner == s.current_thread
    then returned (done esuccess s)
    else switched (kmt_schedule s idle_mutex)

-- An index beyond the pool is not tested by the source.
unfoldable pub kmt_lock_mutex : Kmt → ℕ → Call
kmt_lock_mutex s m =
    let x = s.mutex_pool m in
    if leb max_mutexes m
    then returned fault
    else if x.flags == mutex_free
    then returned (done eusefreed s)
    else if x.owner == s.current_thread
    then returned (done esuccess s)
    else if x.owner == invalid_u16
    then returned (done esuccess (set_mutex s m (record x { owner = s.current_thread })))
    else lock_wait
        (set_mutex s m (record x { waiting = kmt_queue_push x.waiting s.current_thread })) m

-- The loop over the waiting threads goes on while a thread is not terminated: it ends at the first that
-- is, and follows a null pointer behind the last one.
unfoldable pub next_waiter : Kmt → List ℕ → Option (ℕ × List ℕ)
next_waiter s [] = none
next_waiter s (id ∷ rest) =
    if not (status_of s id == terminated) then next_waiter s rest else some (id, rest)

abbrev pub rest_of : List ℕ → Tail → Queue
rest_of [] t = empty_queue
rest_of (x ∷ xs) t = record { items = x ∷ xs; tail = t }

unfoldable pub hand_over : Kmt → ℕ → Run
hand_over s m =
    let x = s.mutex_pool m in
    elim (next_waiter s x.waiting.items) [
      | none ↦ fault
      | some (id, rest) ↦
          on_success
            (kmt_wakeup_thread
              (set_status
                (set_mutex s m (record x { owner = id; waiting = rest_of rest x.waiting.tail })) id
                idle)
              id)
            (λ s'. done esuccess s')
    ]

unfoldable pub kmt_unlock_mutex : Kmt → ℕ → Run
kmt_unlock_mutex s m =
    let x = s.mutex_pool m in
    if leb max_mutexes m
    then fault
    else if x.flags == mutex_free
    then done eusefreed s
    else if not (x.owner == s.current_thread)
    then done enotowned s
    else if kmt_queue_is_empty x.waiting
    then done esuccess (set_mutex s m (record x { owner = invalid_u16 }))
    else hand_over s m

unfoldable pub kmt_is_mutex_owned : Kmt → ℕ → Bool
kmt_is_mutex_owned s m =
    let x = s.mutex_pool m in if x.flags == mutex_free then false else x.owner == s.current_thread

unfoldable pub kmt_free_mutex : Kmt → ℕ → Run
kmt_free_mutex s m =
    let x = s.mutex_pool m in
    if leb max_mutexes m
    then fault
    else if x.flags == mutex_free
    then done einval s
    else if not (x.owner == invalid_u16)
    then done einuse s
    else done esuccess (set_mutex s m (record x { flags = mutex_free; owner = invalid_u16 }))

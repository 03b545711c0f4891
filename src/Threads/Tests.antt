-- ===== src/Threads/Tests.antt =====
-- The sleep heap at small inputs, and the theorems at inputs that meet their hypotheses.
use pentinum_os.Base.{◌+◌, ◌*◌, ◌<◌, ◌≤◌, ◌≡◌, ◌⊎◌, some, none, arith, refl}
use pentinum_os.Threads.Sleep.{
  SleepHeap, Slots, set_slot, sift_up, sift_down, smallest_of, push_sleep_heap, kmt_pop_sleep_heap,
}
use pentinum_os.Threads.Sleep.Order.{IsSleepHeap}
use pentinum_os.Threads.Sleep.Queue.{
  Added, Removed, push_sleep_heap-Added, kmt_pop_sleep_heap-Removed,
}

-- Thread `i` wakes at `10 * (i + 1)`.
abbrev slots : Slots
slots i = record { thread_id = i; wakeup_time = 10 * (i + 1) }

abbrev three : SleepHeap
three = record { sleep_heap = slots; sleep_heap_size = 3 }

three-IsSleepHeap : IsSleepHeap three
three-IsSleepHeap i p q = omega arith

pop_run : ((kmt_pop_sleep_heap three).sleep_heap 0).thread_id ≡ 1
unfolding kmt_pop_sleep_heap sift_down smallest_of set_slot
pop_run = refl

-- A request before all others comes to the root.
push_run :
    (sift_up 3 (set_slot slots 3 (record { thread_id = 9; wakeup_time = 5 })) 3 0).thread_id ≡ 9
unfolding sift_up set_slot
push_run = refl

push_sleep_heap-Added_example :
    ((256 ≤ 3) × (push_sleep_heap three (slots 0) ≡ none))
    ⊎ ((3 < 256)
        × (s' : SleepHeap) × (push_sleep_heap three (slots 0) ≡ some s')
        × Added three (slots 0) s')
push_sleep_heap-Added_example = push_sleep_heap-Added three (slots 0) three-IsSleepHeap

kmt_pop_sleep_heap-Removed_example : Removed three (kmt_pop_sleep_heap three)
kmt_pop_sleep_heap-Removed_example = kmt_pop_sleep_heap-Removed slots 2 three-IsSleepHeap

-- ===== src/Threads/Sleep.antt =====
-- The sleeping threads of c-kernel/syscore/mt/kernel.c: a binary heap in an array, with the earliest
-- time at the root.
pub mod Order
pub mod Up
pub mod Count
pub mod Down
pub mod Queue
use pentinum_os.Base.{
  ℕ, zero, suc, ◌+◌, ◌-◌, ◌*◌, ◌/◌, ◌&&◌, ◌==◌, ltb, leb, if◌then◌else◌, Option, none, some,
}

-- `kmt_sleep_request_t`
pub record SleepRequest : Type 0 where
  pub thread_id : ℕ
  pub wakeup_time : ℕ

abbrev pub Slots : Type 0
Slots = ℕ → SleepRequest

-- `sleep_heap` and `sleep_heap_size` of the manager's state.
pub record SleepHeap : Type 0 where
  pub sleep_heap : Slots
  pub sleep_heap_size : ℕ

abbrev pub max_kernel_threads : ℕ
max_kernel_threads = 256

unfoldable pub set_slot : Slots → ℕ → SleepRequest → Slots
set_slot h i r x = if x == i then r else h x

abbrev pub swap : Slots → ℕ → ℕ → Slots
swap h i j = set_slot (set_slot h i (h j)) j (h i)

abbrev pub time : Slots → ℕ → ℕ
time h i = (h i).wakeup_time

-- The loop of `kmt_sleep_until`, with at most `fuel` rounds.
unfoldable pub sift_up : ℕ → Slots → ℕ → Slots
sift_up zero h idx = h
sift_up (suc fuel) h idx =
    let parent_idx = (idx - 1) / 2 in
    let rest = sift_up fuel (swap h parent_idx idx) parent_idx in
    if idx == 0 then h else if leb (time h parent_idx) (time h idx) then h else rest

-- The part of `kmt_sleep_until` that adds the request; `none` is the panic on a full pool.
unfoldable pub push_sleep_heap : SleepHeap → SleepRequest → Option SleepHeap
push_sleep_heap s r =
    let idx = s.sleep_heap_size in
    if leb max_kernel_threads idx
    then none
    else some (record {
      sleep_heap = sift_up idx (set_slot s.sleep_heap idx r) idx;
      sleep_heap_size = suc idx;
    })

-- The smallest of a node and its children among `n` nodes.
unfoldable pub smallest_of : Slots → ℕ → ℕ → ℕ
smallest_of h n idx =
    let left_child_idx = idx * 2 + 1 in
    let right_child_idx = idx * 2 + 2 in
    let first =
      if ltb left_child_idx n && ltb (time h left_child_idx) (time h idx)
      then left_child_idx
      else idx in
    if ltb right_child_idx n && ltb (time h right_child_idx) (time h first)
    then right_child_idx
    else first

-- The loop of `kmt_pop_sleep_heap`, with at most `fuel` rounds.
unfoldable pub sift_down : ℕ → Slots → ℕ → ℕ → Slots
sift_down zero h n idx = h
sift_down (suc fuel) h n idx =
    let smallest_idx = smallest_of h n idx in
    let rest = sift_down fuel (swap h smallest_idx idx) n smallest_idx in
    if smallest_idx == idx then h else rest

unfoldable pub kmt_pop_sleep_heap : SleepHeap → SleepHeap
kmt_pop_sleep_heap s =
    let n = s.sleep_heap_size - 1 in
    if s.sleep_heap_size == 0
    then s
    else if s.sleep_heap_size == 1
    then record s { sleep_heap_size = 0 }
    else record {
      sleep_heap = sift_down n (set_slot s.sleep_heap 0 (s.sleep_heap n)) n 0;
      sleep_heap_size = n;
    }

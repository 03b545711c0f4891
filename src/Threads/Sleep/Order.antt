-- ===== src/Threads/Sleep/Order.antt =====
-- The order of the sleep heap of c-kernel/syscore/mt/kernel.c.
use pentinum_os.Base.{ℕ, ◌-◌, ◌/◌, ◌≤◌, ◌<◌, ◌≡◌, ◌==◌, if◌then◌else◌, arith}
use pentinum_os.Threads.Sleep.{SleepRequest, SleepHeap, Slots, set_slot, swap, time}

-- Each of the first `n` nodes but the root is no earlier than its parent.
abbrev pub Ordered : Slots → ℕ → Type 0
Ordered h n = (i : ℕ) → 0 < i → i < n → time h ((i - 1) / 2) ≤ time h i

abbrev pub IsSleepHeap : SleepHeap → Type 0
IsSleepHeap s = Ordered s.sleep_heap s.sleep_heap_size

pub time-swap :
    (h : Slots) (a b x : ℕ)
    → time (swap h a b) x ≡ (if x == b then time h a else if x == a then time h b else time h x)
unfolding set_slot
time-swap h a b x = ground arith

pub time-set_slot :
    (h : Slots) (i : ℕ) (r : SleepRequest) (x : ℕ)
    → time (set_slot h i r) x ≡ (if x == i then r.wakeup_time else time h x)
unfolding set_slot
time-set_slot h i r x = ground arith

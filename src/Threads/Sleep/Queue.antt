-- ===== src/Threads/Sleep/Queue.antt =====
-- The sleep heap of c-kernel/syscore/mt/kernel.c as a queue: a request is added, the earliest removed.
use mathlib.Core.Path.{subst}
use pentinum_os.Base.{
  ℕ, zero, suc, ◌+◌, ◌-◌, ◌/◌, ◌≤◌, ◌<◌, ◌≡◌, ◌==◌, inl, inr, leb, Bool, false, arith, refl, ap,
  Bool-cases, ◌⊎◌, ◌∙◌, sym, none, some,
}
use pentinum_os.Threads.Sleep.{
  SleepRequest, SleepHeap, Slots, set_slot, time, sift_down, push_sleep_heap, kmt_pop_sleep_heap,
}
use pentinum_os.Threads.Sleep.Order.{time-set_slot, Ordered, IsSleepHeap}
use pentinum_os.Threads.Sleep.Up.{OrderedBut, sift_up-Ordered}
use pentinum_os.Threads.Sleep.Down.{OrderedAbove, sift_down-Ordered}
use pentinum_os.Threads.Sleep.Count.{
  bit, count, count-suc, count-last, count-set, count-sift_up, count-sift_down,
}

-- How many of the requests of a heap have the property `q`.
abbrev pub requests : (SleepRequest → Bool) → SleepHeap → ℕ
requests q s = count q s.sleep_heap s.sleep_heap_size

module _ (h : Slots) (n : ℕ) (o : Ordered h n) where
  -- The root is the earliest.
  pub root_first : (fuel i : ℕ) → i ≤ fuel → i < n → time h 0 ≤ time h i
  root_first zero zero a b = omega arith
  root_first zero (suc i) a b = absurd (omega arith)
  root_first (suc fuel) zero a b = omega arith
  root_first (suc fuel) (suc i) a b =
      let up = root_first fuel (i / 2) (omega arith) (omega arith) in
      let e : time h ((suc i - 1) / 2) ≡ time h (i / 2) = ap (time h) (omega arith) in
      omega (arith, up, e, o (suc i) (omega arith) b)

  added-OrderedBut : (r : SleepRequest) → OrderedBut (set_slot h n r) (suc n) n
  added-OrderedBut r = record {
    others = λ i p q d.
        ground
          (arith, o i p (omega arith), time-set_slot h n r i, time-set_slot h n r ((i - 1) / 2));
    below = λ i p q e s. absurd (omega arith);
  }

  last_moved-OrderedAbove : OrderedAbove (set_slot h 0 (h (n - 1))) (n - 1) 0
  last_moved-OrderedAbove = record {
    others = λ i p q d. ground (
      arith,
      o i p (omega arith),
      time-set_slot h 0 (h (n - 1)) i,
      time-set_slot h 0 (h (n - 1)) ((i - 1) / 2),
    );
    above = λ i p q e s. absurd (omega arith);
  }

-- What an insertion gives.
pub record Added (s : SleepHeap) (r : SleepRequest) (s' : SleepHeap) : Type 0 where
  pub heap : IsSleepHeap s'
  pub size : s'.sleep_heap_size ≡ suc s.sleep_heap_size
  pub same : (q : SleepRequest → Bool) → requests q s' ≡ bit (q r) + requests q s

-- On an ordered sleep heap with fewer than 256 requests, the insertion of `kmt_sleep_until` gives an
-- ordered heap with the same requests and the new one; on a full one it panics.
pub push_sleep_heap-Added :
    (s : SleepHeap) (r : SleepRequest)
    → IsSleepHeap s
    → ((256 ≤ s.sleep_heap_size) × (push_sleep_heap s r ≡ none))
      ⊎ ((s.sleep_heap_size < 256)
          × (s' : SleepHeap) × (push_sleep_heap s r ≡ some s')
          × Added s r s')
unfolding push_sleep_heap
push_sleep_heap-Added s r o =
    let n : ℕ = s.sleep_heap_size in
    let h : Slots = s.sleep_heap in
    elim (Bool-cases (leb 256 n)) [
      | inl full ↦ rw full (inl (ground arith, refl))
      | inr room ↦ rw room (
          inr (
            ground arith,
            _,
            refl,
            record {
              heap =
                  sift_up-Ordered n (set_slot h n r) (suc n) n (omega arith) (omega arith)
                    (added-OrderedBut h n o r);
              size = refl;
              same = λ q.
                  count-sift_up q n (set_slot h n r) (suc n) n (omega arith) ∙ count-last q h r n;
            },
          ))
    ]

-- What a removal gives: the request at the root goes, and it was the earliest.
pub record Removed (s s' : SleepHeap) : Type 0 where
  pub heap : IsSleepHeap s'
  pub size : suc s'.sleep_heap_size ≡ s.sleep_heap_size
  pub same : (q : SleepRequest → Bool) → bit (q (s.sleep_heap 0)) + requests q s' ≡ requests q s
  pub first : (i : ℕ) → i < s.sleep_heap_size → time s.sleep_heap 0 ≤ time s.sleep_heap i

pop_many :
    (h : Slots) (n : ℕ)
    → kmt_pop_sleep_heap (record { sleep_heap = h; sleep_heap_size = suc (suc n) }) ≡ record {
      sleep_heap = sift_down (suc n) (set_slot h 0 (h (suc n))) (suc n) 0;
      sleep_heap_size = suc n;
    }
unfolding kmt_pop_sleep_heap
pop_many h n =
    let e : suc (suc n) - 1 ≡ suc n = omega arith in
    let f : (suc (suc n) == 0) ≡ false = ground arith in
    let g : (suc (suc n) == 1) ≡ false = ground arith in rw (e, f, g) refl

pop_one :
    (h : Slots)
    → kmt_pop_sleep_heap (record { sleep_heap = h; sleep_heap_size = 1 })
      ≡ record { sleep_heap = h; sleep_heap_size = 0 }
unfolding kmt_pop_sleep_heap
pop_one h = refl

-- On an ordered sleep heap that is not empty, `kmt_pop_sleep_heap` removes the request at the root,
-- which no other request precedes, and keeps the order and the other requests.
pub kmt_pop_sleep_heap-Removed :
    (h : Slots) (n : ℕ)
    → IsSleepHeap (record { sleep_heap = h; sleep_heap_size = suc n })
    → Removed
        (record { sleep_heap = h; sleep_heap_size = suc n })
        (kmt_pop_sleep_heap (record { sleep_heap = h; sleep_heap_size = suc n }))
kmt_pop_sleep_heap-Removed h zero o = rw (pop_one h) (record {
  heap = λ i p q. absurd (omega arith);
  size = refl;
  same = λ q. sym (count-suc q h 0);
  first = λ i l. root_first h 1 o i i (omega arith) l;
})
kmt_pop_sleep_heap-Removed h (suc n) o =
    let back : suc (suc n) - 1 ≡ suc n = omega arith in
    let above : OrderedAbove (set_slot h 0 (h (suc n))) (suc n) 0 =
      subst (λ t. OrderedAbove (set_slot h 0 (h t)) t 0) back
        (last_moved-OrderedAbove h (suc (suc n)) o) in
    rw (pop_many h n) (record {
      heap = sift_down-Ordered (suc n) (set_slot h 0 (h (suc n))) (suc n) 0 (omega arith) above;
      size = refl;
      same = λ q. omega (
        arith,
        count-sift_down q (suc n) (set_slot h 0 (h (suc n))) (suc n) 0 (omega arith),
        count-set q h 0 (h (suc n)) (suc n) (omega arith),
        count-suc q h (suc n),
      );
      first = λ i l. root_first h (suc (suc n)) o i i (omega arith) l;
    })

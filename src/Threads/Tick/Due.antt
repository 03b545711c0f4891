-- ===== src/Threads/Tick/Due.antt =====
-- The sleepers that `kmt_preemptive_intr_handler` wakes, c-kernel/syscore/mt/kernel.c.
use mathlib.Core.Path.{subst}
use pentinum_os.Base.{
  ℕ, zero, suc, ◌≡◌, inl, inr, true, false, arith, refl, sym, [], append_nil_right, ◌∙◌, Bool-cases,
  some,
}
use pentinum_os.Threads.State.{Kmt, done, esuccess}
use pentinum_os.Threads.Sleep.{SleepHeap, kmt_pop_sleep_heap}
use pentinum_os.Threads.Sleep.Order.{IsSleepHeap}
use pentinum_os.Threads.Sleep.Count.{count-none}
use pentinum_os.Threads.Sleep.Queue.{requests, Removed, root_first, kmt_pop_sleep_heap-Removed}
use pentinum_os.Threads.Tick.{is_due, wake_root, wake_due}
use pentinum_os.Threads.Tick.Round.{next, round, round-IsAsleep, round-Woke}
use pentinum_os.Threads.Tick.Woken.{due_for, IsAsleep, Woke}

-- With no due root, no request is due.
none_due :
    (h : SleepHeap) (now id : ℕ)
    → IsSleepHeap h
    → is_due h now ≡ false
    → requests (due_for now id) h ≡ 0
none_due h now id o e =
    count-none (due_for now id) h.sleep_heap h.sleep_heap_size
      (λ i l. ground (arith, root_first h.sleep_heap h.sleep_heap_size o i i (omega arith) l, e, l))

removed :
    (h : SleepHeap) (n : ℕ)
    → h.sleep_heap_size ≡ suc n
    → IsSleepHeap h
    → Removed h (kmt_pop_sleep_heap h)
removed h n e =
    subst
      (λ k.
        IsSleepHeap (record { sleep_heap = h.sleep_heap; sleep_heap_size = k })
        → Removed (record { sleep_heap = h.sleep_heap; sleep_heap_size = k })
            (kmt_pop_sleep_heap (record { sleep_heap = h.sleep_heap; sleep_heap_size = k })))
      (sym e) (kmt_pop_sleep_heap-Removed h.sleep_heap n)

stops :
    (fuel : ℕ) (s : Kmt) (now : ℕ)
    → is_due s.sleep now ≡ false
    → wake_due (suc fuel) s now ≡ some (done esuccess s)
unfolding wake_due
stops fuel s now e = rw (e, wake_due) refl

goes_on :
    (fuel : ℕ) (s s' : Kmt) (now : ℕ)
    → is_due s.sleep now ≡ true
    → wake_root s ≡ done esuccess s'
    → wake_due (suc fuel) s now ≡ wake_due fuel s' now
unfolding wake_due
goes_on fuel s s' now e run = rw (e, run, wake_due) refl

settled-Woke : (s : Kmt) (now : ℕ) → IsAsleep s → is_due s.sleep now ≡ false → Woke s s now
settled-Woke s now v e = record {
  heap = v.heap;
  settled = e;
  kept = λ q. refl;
  due = λ id d. absurd (d (none_due s.sleep now id v.heap e));
  gains = λ p h. ([], sym (append_nil_right (s.ready_queues p).items), ground arith, λ id a. cc);
  others = λ id d. refl;
  current = refl;
}

wakes :
    (n : ℕ) (s : Kmt) (now : ℕ)
    → s.sleep.sleep_heap_size ≡ n
    → IsAsleep s
    → (s' : Kmt) × (wake_due (suc n) s now ≡ some (done esuccess s')) × Woke s s' now
wakes zero s now e v =
    let calm : is_due s.sleep now ≡ false = ground arith in
    (s, stops 0 s now calm, settled-Woke s now v calm)
wakes (suc n) s now e v = elim (Bool-cases (is_due s.sleep now)) [
  | inl full ↦
      let r = removed s.sleep n e v.heap in
      let size : (kmt_pop_sleep_heap s.sleep).sleep_heap_size ≡ n = omega (arith, r.size, e) in
      let (s', run, w) = wakes n (next s now v r full) now size (round-IsAsleep s now v r full) in
      (
        s',
        goes_on (suc n) s (next s now v r full) now full (round s now v r full) ∙ run,
        round-Woke s now v r full s' w,
      )
  | inr calm ↦ (s, stops (suc n) s now calm, settled-Woke s now v calm)
]

-- On an ordered sleep heap whose threads exist and have queues, and for queues with fitting tails, the
-- loop over the sleepers ends within as many rounds as there are requests: every thread with a due
-- request is ready and on the queue of its priority, whose bit is set; the queues keep their threads in
-- order and gain only due ones, at their ends; no due request is left, the later ones are kept with
-- their times and threads; and no other thread's entry has changed.
pub wake_due-Woke :
    (s : Kmt) (now : ℕ)
    → IsAsleep s
    → (s' : Kmt) × (wake_due (suc s.sleep.sleep_heap_size) s now ≡ some (done esuccess s'))
      × Woke s s' now
wake_due-Woke s now v = wakes s.sleep.sleep_heap_size s now refl v

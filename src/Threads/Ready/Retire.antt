-- ===== src/Threads/Ready/Retire.antt =====
-- `kmt_schedule` of c-kernel/syscore/mt/kernel.c: the current thread gives way, and the next one runs.
use pentinum_os.Base.{
  ℕ, ◌<◌, ◌≡◌, ◌≢◌, inl, inr, true, List, [], ◌∷◌, ◌++◌, ◌==◌, arith, refl, sym, ap, ◌∙◌,
  Bool-cases, update,
}
use pentinum_os.Threads.State.{
  Kmt, Tcb, done, set_status, status_of, terminated, ready, running, idle, esuccess,
}
use pentinum_os.Threads.Ready.{retire, kmt_wakeup_thread, kmt_schedule}
use pentinum_os.Threads.Ready.Inv.{IsReady}
use pentinum_os.Threads.Ready.Wake.{woken, wakeup_eq, Woken, enqueue-Woken}
use pentinum_os.Threads.Ready.Schedule.{set_tcb-IsReady, Picks, pick-Picks}

-- The current thread is known, on no queue, and has a base priority with a queue.
pub record IsCurrent (s : Kmt) : Type 0 where
  pub known : s.current_thread < s.thread_count
  pub off_queue : status_of s s.current_thread ≢ ready
  pub base : (s.tcb_pool s.current_thread).base_priority < 31

-- The current thread with a fresh age, at its base priority.
abbrev rested_tcb : Tcb → Tcb
rested_tcb t = record t { status = idle; age = 0; priority = t.base_priority }

abbrev pub rested : Kmt → Kmt
rested s = record s {
  tcb_pool = update s.tcb_pool s.current_thread (rested_tcb (s.tcb_pool s.current_thread));
}

-- The current thread has given way: it is terminated and left alone, it waits at its base priority
-- with age 0, or it has the status that was asked for.
pub data Retired (s : Kmt) (new_status : ℕ) : Kmt → Type 0 where
  was_terminated : status_of s s.current_thread ≡ terminated → Retired s new_status s
  waits :
      {s1 : Kmt}
      → status_of s s.current_thread ≢ terminated
      → new_status ≡ ready
      → Woken (rested s) s1 s.current_thread
      → Retired s new_status s1
  sleeps :
      status_of s s.current_thread ≢ terminated
      → new_status ≢ ready
      → Retired s new_status (set_status s s.current_thread new_status)

module _ (s : Kmt) (v : IsReady s) (c : IsCurrent s) where
  rested-IsReady : IsReady (rested s)
  rested-IsReady =
      set_tcb-IsReady s s.current_thread (rested_tcb (s.tcb_pool s.current_thread)) v c.off_queue
        (ground arith)

  rested_at : (rested s).tcb_pool s.current_thread ≡ rested_tcb (s.tcb_pool s.current_thread)
  rested_at =
      let self : (s.current_thread == s.current_thread) ≡ true = ground arith in rw self refl

  rested_status : status_of (rested s) s.current_thread ≡ idle
  rested_status = ap (λ t. t.status) rested_at

  rested_place : ((rested s).tcb_pool s.current_thread).priority < 31
  rested_place = ground (arith, ap (λ t. t.priority) rested_at, c.base)

  not_idle : (n : ℕ) → n ≢ idle → status_of (rested s) s.current_thread ≢ n
  not_idle n d e = d (sym e ∙ rested_status)

  yield_eq :
      (s1 : Kmt) × (kmt_wakeup_thread (rested s) s.current_thread ≡ done esuccess s1)
      × Woken (rested s) s1 s.current_thread
  yield_eq =
      let asleep = not_idle ready (omega arith) in
      (
        woken (rested s) s.current_thread rested-IsReady c.known asleep rested_place,
        wakeup_eq (rested s) s.current_thread rested-IsReady c.known asleep rested_place
            (not_idle running (omega arith)) (not_idle terminated (omega arith)),
        enqueue-Woken (rested s) s.current_thread rested-IsReady c.known asleep rested_place,
      )

  pub retire-Retired :
      (new_status : ℕ)
      → (s1 : Kmt) × (retire s new_status ≡ done esuccess s1) × IsReady s1 × Retired s new_status s1
  unfolding retire
  retire-Retired new_status = elim (Bool-cases (status_of s s.current_thread == terminated)) [
    | inl gone ↦ (s, rw gone refl, v, was_terminated (ground arith))
    | inr alive ↦ elim (Bool-cases (new_status == ready)) [
      | inl back ↦
          let (s1, e, w) = yield_eq in
          (s1, rw (alive, back) e, w.inv, waits (ground arith) (ground arith) w)
      | inr other ↦ (
        set_status s s.current_thread new_status,
        rw (alive, other) refl,
        set_tcb-IsReady s s.current_thread
            (record (s.tcb_pool s.current_thread) { status = new_status }) v c.off_queue
            (ground arith),
        sleeps (ground arith) (ground arith),
      )
    ]
  ]

-- With the ready queues in order, `kmt_schedule` first retires the current thread by the status that is
-- asked for, and keeps the queues in order. Then either no thread is ready and the kernel panics, or
-- the head of the highest queue with a thread is taken off it, becomes the current thread and runs, and
-- the queues are in order again.
pub kmt_schedule-Picks :
    (s : Kmt) (new_status : ℕ)
    → IsReady s
    → IsCurrent s
    → (s1 : Kmt) × IsReady s1 × Retired s new_status s1 × Picks s1 (kmt_schedule s new_status)
unfolding kmt_schedule
kmt_schedule-Picks s new_status v c =
    let (s1, e, w, r) = retire-Retired s v c new_status in (s1, w, r, rw e (pick-Picks s1 w))

not_empty : (xs : List ℕ) (x : ℕ) → xs ++ x ∷ [] ≢ []
not_empty [] x e = cc
not_empty (y ∷ ys) x e = cc

-- A thread that is not terminated and yields never makes the kernel panic: some thread runs next.
pub kmt_schedule_yields :
    (s : Kmt)
    → IsReady s
    → IsCurrent s
    → status_of s s.current_thread ≢ terminated
    → (s' : Kmt) × (kmt_schedule s ready ≡ done esuccess s')
      × IsReady s'
      × (status_of s' s'.current_thread ≡ running)
      × (s'.current_thread < s'.thread_count)
kmt_schedule_yields s v c alive =
    let (s1, w, r, p) = kmt_schedule-Picks s ready v c in
    elim p [
      | inl (empty, e) ↦ absurd (refused s1 r empty)
      | inr (s', e, q) ↦ (s', e, q.inv, q.runs, q.known)
    ]
  where
    refused :
        (s1 : Kmt) → Retired s ready s1 → ((r : ℕ) → r < 31 → (s1.ready_queues r).items ≡ []) → ⊥
    refused s1 (was_terminated t) empty = alive t
    refused s1 (waits a n w) empty =
        not_empty _ s.current_thread (sym w.queue ∙ empty _ (rested_place s v c))
    refused s1 (sleeps a n) empty = n refl

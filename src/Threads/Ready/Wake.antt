-- ===== src/Threads/Ready/Wake.antt =====
-- `kmt_wakeup_thread` of c-kernel/syscore/mt/kernel.c.
use pentinum_os.Base.{
  ℕ, ◌≤◌, ◌<◌, ◌≡◌, ◌≢◌, ◌⊎◌, inl, inr, true, false, ◌||◌, List, [], ◌∷◌, ◌++◌, ◌==◌, leb, has,
  Distinct, has-append, arith, refl, Bool-cases, update, if◌then◌else◌,
}
use pentinum_os.Threads.State.{
  Kmt, Queue, Tail, null, last, stray, push_at, Run, done, kmt_queue_push, is_nil, set_status,
  status_of, terminated, ready, running, esuccess, einval,
}
use pentinum_os.Threads.Ready.{enqueue, kmt_wakeup_thread, eterminated}
use pentinum_os.Threads.Ready.Inv.{TailFits, queued, IsReady}

Distinct-push : (xs : List ℕ) (x : ℕ) → Distinct xs → has x xs ≡ false → Distinct (xs ++ x ∷ [])
Distinct-push [] x d out = (refl, tt)
Distinct-push (y ∷ xs) x d out =
    (ground (arith, has-append y xs (x ∷ []), d.0), Distinct-push xs x d.1 (ground arith))

-- What a push onto a queue with a fitting tail gives.
pub pushed_items :
    (t : Tail) (xs : List ℕ) (x : ℕ) → TailFits xs t → (push_at t xs x).items ≡ xs ++ x ∷ []
pushed_items null [] x h = refl
pushed_items last [] x h = cc
pushed_items stray [] x h = cc
pushed_items null (y ∷ xs) x h = cc
pushed_items last (y ∷ xs) x h = refl
pushed_items stray (y ∷ xs) x h = cc

pub pushed-TailFits :
    (t : Tail) (xs : List ℕ) (x : ℕ)
    → TailFits xs t
    → TailFits (push_at t xs x).items (push_at t xs x).tail
pushed-TailFits null [] x h = refl
pushed-TailFits last [] x h = cc
pushed-TailFits stray [] x h = cc
pushed-TailFits null (y ∷ xs) x h = cc
pushed-TailFits last (y ∷ xs) x h = refl
pushed-TailFits stray (y ∷ xs) x h = cc

pushed_not_nil : (xs : List ℕ) (x : ℕ) → is_nil (xs ++ x ∷ []) ≡ false
pushed_not_nil [] x = refl
pushed_not_nil (y ∷ xs) x = refl

module _ (s : Kmt) (id : ℕ) (v : IsReady s) (known : id < s.thread_count)
    (asleep : status_of s id ≢ ready) (place : (s.tcb_pool id).priority < 31) where
  abbrev priority : ℕ
  priority = (s.tcb_pool id).priority

  abbrev queue : Queue
  queue = s.ready_queues priority

  abbrev pub woken : Kmt
  woken =
      set_status
        (record s {
          ready_queues = update s.ready_queues priority (kmt_queue_push queue id);
          ready_priority_bitmap = update s.ready_priority_bitmap priority true;
        })
        id ready

  enqueue_eq : enqueue s id ≡ done esuccess woken
  unfolding enqueue
  enqueue_eq = let e : leb 31 priority ≡ false = ground arith in rw e refl

  pub wakeup_eq :
      status_of s id ≢ running
      → status_of s id ≢ terminated
      → kmt_wakeup_thread s id ≡ done esuccess woken
  unfolding kmt_wakeup_thread
  wakeup_eq not_running alive =
      let a : leb s.thread_count id ≡ false = ground (arith, known) in
      let b : (status_of s id == ready) ≡ false = ground (arith, asleep) in
      let c : (status_of s id == running) ≡ false = ground arith in
      let d : (status_of s id == terminated) ≡ false = ground arith in rw (a, b, c, d) enqueue_eq

  not_queued : (p : ℕ) → p < 31 → queued s p id ≡ false
  not_queued p h = ground (arith, v.are_ready p id h)

  new_items : (kmt_queue_push queue id).items ≡ queue.items ++ id ∷ []
  new_items = pushed_items queue.tail queue.items id (v.tails priority place)

  woken-queued :
      (p a : ℕ)
      → p < 31
      → queued woken p a ≡ (if p == priority then queued s p a || (a == id) else queued s p a)
  woken-queued p a h = elim (Bool-cases (p == priority)) [
    | inl here ↦
        let q : p ≡ priority = ground arith in
        rw (here, q, new_items) (ground (arith, has-append a queue.items (id ∷ [])))
    | inr there ↦ rw there refl
  ]

  pub woken-IsReady : IsReady woken
  woken-IsReady = record {
    bits = λ p h. elim (Bool-cases (p == priority)) [
      | inl here ↦ rw (here, new_items) (ground (arith, pushed_not_nil queue.items id))
      | inr there ↦ rw there (v.bits p h)
    ];
    no_bit = λ p h. let e : (p == priority) ≡ false = ground arith in rw e (v.no_bit p h);
    tails = λ p h. elim (Bool-cases (p == priority)) [
      | inl here ↦ rw here (pushed-TailFits queue.tail queue.items id (v.tails priority place))
      | inr there ↦ rw there (v.tails p h)
    ];
    once = λ p h. elim (Bool-cases (p == priority)) [
      | inl here ↦
          rw (here, new_items)
            (Distinct-push queue.items id (v.once priority place) (not_queued priority place))
      | inr there ↦ rw there (v.once p h)
    ];
    one_queue = λ p r a h k i j. ground (
      arith,
      woken-queued p a h,
      woken-queued r a k,
      v.one_queue p r a h k,
      not_queued p h,
      not_queued r k,
    );
    are_ready = λ p a h i. ground (arith, woken-queued p a h, v.are_ready p a h);
    are_queued = λ a l r. elim (Bool-cases (a == id)) [
      | inl here ↦ (priority, place, ground (arith, woken-queued priority a place))
      | inr there ↦
          let (p, h, i) = v.are_queued a l (ground arith) in
          (p, h, ground (arith, woken-queued p a h))
    ];
  }

-- What waking a thread changes: it is ready, and the last on the queue of its priority.
pub record Woken (s s' : Kmt) (id : ℕ) : Type 0 where
  pub inv : IsReady s'
  pub now_ready : status_of s' id ≡ ready
  pub queue :
      (s'.ready_queues (s.tcb_pool id).priority).items
      ≡ (s.ready_queues (s.tcb_pool id).priority).items ++ id ∷ []
  pub queues : (p : ℕ) → p ≢ (s.tcb_pool id).priority → s'.ready_queues p ≡ s.ready_queues p
  pub tcbs : (a : ℕ) → a ≢ id → s'.tcb_pool a ≡ s.tcb_pool a
  pub current : s'.current_thread ≡ s.current_thread
  pub count : s'.thread_count ≡ s.thread_count

-- How `kmt_wakeup_thread` ends. A refused call, and one on a thread that is ready or running, changes
-- nothing.
pub data Wakes (s : Kmt) (id : ℕ) : Run → Type 0 where
  unknown : s.thread_count ≤ id → Wakes s id (done einval s)
  gone : id < s.thread_count → status_of s id ≡ terminated → Wakes s id (done eterminated s)
  awake :
      id < s.thread_count
      → (status_of s id ≡ ready) ⊎ (status_of s id ≡ running)
      → Wakes s id (done esuccess s)
  woke :
      {s' : Kmt}
      → id < s.thread_count
      → status_of s id ≢ terminated
      → status_of s id ≢ running
      → status_of s id ≢ ready
      → Woken s s' id
      → Wakes s id (done esuccess s')

pub enqueue-Woken :
    (s : Kmt) (id : ℕ) (v : IsReady s) (known : id < s.thread_count)
    (asleep : status_of s id ≢ ready) (place : (s.tcb_pool id).priority < 31)
    → Woken s (woken s id v known asleep place) id
enqueue-Woken s id v known asleep place = record {
  inv = woken-IsReady s id v known asleep place;
  now_ready = ground arith;
  queue = ground (arith, new_items s id v known asleep place);
  queues = λ p n. let e : (p == (s.tcb_pool id).priority) ≡ false = ground arith in rw e refl;
  tcbs = λ a n. let e : (a == id) ≡ false = ground arith in rw e refl;
  current = refl;
  count = refl;
}

-- With the ready queues in order and a priority that has a queue, `kmt_wakeup_thread` returns: EINVAL
-- for an unknown thread, ETERMINATED for a terminated one, and success for the others. A thread that is
-- neither ready nor running becomes ready and the last on the queue of its priority.
pub kmt_wakeup_thread-Wakes :
    (s : Kmt) (id : ℕ)
    → IsReady s
    → (s.tcb_pool id).priority < 31
    → Wakes s id (kmt_wakeup_thread s id)
unfolding kmt_wakeup_thread
kmt_wakeup_thread-Wakes s id v place = elim (Bool-cases (leb s.thread_count id)) [
  | inl out ↦ rw out (unknown (ground arith))
  | inr known ↦
      let k : id < s.thread_count = ground arith in
      rw known (elim (Bool-cases (status_of s id == ready)) [
        | inl r ↦ rw r (awake k (inl (ground arith)))
        | inr not_ready ↦ rw not_ready (elim (Bool-cases (status_of s id == running)) [
          | inl r ↦ rw r (awake k (inr (ground arith)))
          | inr not_running ↦ rw not_running (elim (Bool-cases (status_of s id == terminated)) [
            | inl t ↦ rw t (gone k (ground arith))
            | inr alive ↦
                let asleep : status_of s id ≢ ready = ground arith in
                rw (alive, enqueue_eq s id v k asleep place)
                  (woke k (ground arith) (ground arith) asleep
                    (enqueue-Woken s id v k asleep place))
          ])
        ])
      ])
]

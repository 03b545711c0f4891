-- ===== src/Threads/Scenario.antt =====
-- Four threads, with the theorems on the scheduler, the mutexes, the remote calls and the timer at
-- states that meet their hypotheses.
use pentinum_os.Base.{
  ℕ, zero, suc, ◌<◌, ◌≡◌, ◌≢◌, ◌⊎◌, inl, inr, true, false, List, [], ◌∷◌, some, none, ◌==◌,
  if◌then◌else◌, arith, refl, has, sym, ap, Bool-cases,
}
use pentinum_os.Threads.State.{
  Kmt, Tcb, Queue, last, RpcDesc, done, fault, Mutex, empty_queue, running, ready, terminated,
  idle_rpc_callee, idle_rpc_caller, status_of, esuccess, invalid_u16,
}
use pentinum_os.Threads.Sleep.Count.{count-none}
use pentinum_os.Threads.Ready.{enqueue, kmt_wakeup_thread, kmt_schedule}
use pentinum_os.Threads.Ready.Inv.{IsReady}
use pentinum_os.Threads.Ready.Wake.{Wakes, kmt_wakeup_thread-Wakes}
use pentinum_os.Threads.Ready.Schedule.{Picks}
use pentinum_os.Threads.Ready.Retire.{IsCurrent, Retired, kmt_schedule-Picks, kmt_schedule_yields}
use pentinum_os.Threads.Mutex.{
  mutex_used, mutex_free, pool_full, enotowned, einuse, kmt_create_mutex, kmt_lock_mutex,
  kmt_unlock_mutex, kmt_free_mutex, kmt_is_mutex_owned,
}
use pentinum_os.Threads.Mutex.Create.{Created, kmt_create_mutex-Created}
use pentinum_os.Threads.Mutex.Own.{
  IsOwned, queued_up, mutex_exclusion, lock-unlock, kmt_unlock_mutex_faults,
}
use pentinum_os.Threads.Mutex
use pentinum_os.Threads.Rpc
use pentinum_os.Threads.Rpc.Exchange.{kmt_rpc_call-listen}
use pentinum_os.Threads.Rpc.Answer.{kmt_rpc_return-rpc_wait}
use pentinum_os.Threads.Tick.{age_queue, raised, wake_due}
use pentinum_os.Threads.Tick.Age.{Calm, Aged, age_queue-Aged}
use pentinum_os.Threads.Tick.Due.{wake_due-Woke}
use pentinum_os.Threads.Tick.Woken.{unknown, IsAsleep, Woke}

-- Thread 0 runs, 1 is ready, 2 waits for requests, and 3 for an answer.
abbrev statuses : ℕ → ℕ
statuses zero = running
statuses (suc zero) = ready
statuses (suc (suc zero)) = idle_rpc_callee
statuses (suc (suc (suc i))) = idle_rpc_caller

abbrev pool : ℕ → Tcb
pool i = record { age = 0; status = statuses i; priority = 5; base_priority = 5 }

abbrev queues : ℕ → Queue
queues p = if p == 5 then (record { items = 1 ∷ []; tail = last }) else empty_queue

abbrev four : Kmt
four = record {
  tcb_pool = pool;
  threads = λ i. record { rpc_queue = []; rpc_return = 0 };
  thread_count = 4;
  mutex_pool = λ i. record { flags = mutex_free; owner = 0; waiting = empty_queue };
  alloc_mutex_count = 0;
  current_thread = 0;
  preemption = true;
  ready_priority_bitmap = λ p. p == 5;
  ready_queues = queues;
  sleep = record {
    sleep_heap = λ i. record { thread_id = 2; wakeup_time = 10 };
    sleep_heap_size = 1;
  };
}

only_one : (id : ℕ) → statuses id ≡ ready → id ≡ 1
only_one zero e = absurd (omega (arith, e))
only_one (suc zero) e = refl
only_one (suc (suc zero)) e = absurd (omega (arith, e))
only_one (suc (suc (suc i))) e = absurd (omega (arith, e))

four-IsReady : IsReady four
four-IsReady = record {
  bits = λ p h. ground arith;
  no_bit = λ p h. ground arith;
  tails = λ p h. elim (Bool-cases (p == 5)) [ inl y ↦ rw y refl | inr n ↦ rw n refl ];
  once = λ p h. elim (Bool-cases (p == 5)) [ inl y ↦ rw y (refl, tt) | inr n ↦ rw n tt ];
  one_queue = λ p r id h k a b. ground arith;
  are_ready = λ p id h a. let e : id ≡ 1 = ground arith in rw e (refl, omega arith);
  are_queued = λ id h e. (5, omega arith, rw (only_one id e) refl);
}

four-IsCurrent : IsCurrent four
four-IsCurrent = record {
  known = omega arith;
  off_queue = λ e. absurd (omega (arith, e));
  base = omega arith;
}

kmt_wakeup_thread-Wakes_example : Wakes four 2 (kmt_wakeup_thread four 2)
kmt_wakeup_thread-Wakes_example = kmt_wakeup_thread-Wakes four 2 four-IsReady (omega arith)

kmt_schedule-Picks_example :
    (s1 : Kmt) × IsReady s1 × Retired four ready s1 × Picks s1 (kmt_schedule four ready)
kmt_schedule-Picks_example = kmt_schedule-Picks four ready four-IsReady four-IsCurrent

kmt_schedule_yields_example :
    (s' : Kmt) × (kmt_schedule four ready ≡ done esuccess s')
    × IsReady s'
    × (status_of s' s'.current_thread ≡ running)
    × (s'.current_thread < s'.thread_count)
kmt_schedule_yields_example =
    kmt_schedule_yields four four-IsReady four-IsCurrent (λ e. absurd (omega (arith, e)))

kmt_create_mutex-Created_example :
    ((kmt_create_mutex four ≡ (pool_full, four))
      × ((i : ℕ) → i < 1024 → (four.mutex_pool i).flags ≢ mutex_free))
    ⊎ ((m : ℕ) × (s' : Kmt) × (kmt_create_mutex four ≡ (m, s')) × Created four s' m)
kmt_create_mutex-Created_example = kmt_create_mutex-Created four (λ i l. refl)

abbrev owned_by : ℕ → List ℕ → Mutex
owned_by o ids = record {
  flags = mutex_used;
  owner = o;
  waiting = record { items = ids; tail = last };
}

-- Every mutex is owned by the thread `o`, and the threads `ids` wait.
abbrev with_mutex : ℕ → List ℕ → Kmt
with_mutex o ids = record four { mutex_pool = λ i. owned_by o ids }

mutex_exclusion_example :
    (kmt_unlock_mutex (with_mutex 3 (1 ∷ [])) 7 ≡ done enotowned (with_mutex 3 (1 ∷ [])))
    × (kmt_free_mutex (with_mutex 3 (1 ∷ [])) 7 ≡ done einuse (with_mutex 3 (1 ∷ [])))
    × (kmt_is_mutex_owned (with_mutex 3 (1 ∷ [])) 7 ≡ false)
    × (kmt_lock_mutex (with_mutex 3 (1 ∷ [])) 7
        ≡ Mutex.switched (
            kmt_schedule
              (queued_up (with_mutex 3 (1 ∷ [])) 7 3 (record {
                inside = omega arith;
                used = refl;
                owner = refl;
                real = λ e. absurd (omega (arith, e));
              }))
              5))
    × IsOwned
        (queued_up (with_mutex 3 (1 ∷ [])) 7 3 (record {
          inside = omega arith;
          used = refl;
          owner = refl;
          real = λ e. absurd (omega (arith, e));
        }))
        7
        3
mutex_exclusion_example =
    mutex_exclusion (with_mutex 3 (1 ∷ [])) 7 3
      (record {
        inside = omega arith;
        used = refl;
        owner = refl;
        real = λ e. absurd (omega (arith, e));
      })
      (λ e. absurd (omega (arith, e)))

abbrev unlocked : Kmt
unlocked = record four {
  mutex_pool = λ i. record { flags = mutex_used; owner = invalid_u16; waiting = empty_queue };
}

lock-unlock_example :
    (s1 s2 : Kmt) × (kmt_lock_mutex unlocked 7 ≡ Mutex.returned (done esuccess s1))
    × (kmt_is_mutex_owned s1 7 ≡ true)
    × (kmt_unlock_mutex s1 7 ≡ done esuccess s2)
    × ((i : ℕ) → s2.mutex_pool i ≡ unlocked.mutex_pool i)
lock-unlock_example = lock-unlock unlocked 7 (omega arith) refl (λ e. absurd (omega (arith, e)))

live : (id : ℕ) → has id (1 ∷ []) ≡ true → status_of (with_mutex 0 (1 ∷ [])) id ≢ terminated
live id h e = let q : id ≡ 1 = ground arith in absurd (omega (arith, ap statuses (sym q), e))

kmt_unlock_mutex_faults_example : kmt_unlock_mutex (with_mutex 0 (1 ∷ [])) 7 ≡ fault
kmt_unlock_mutex_faults_example =
    kmt_unlock_mutex_faults (with_mutex 0 (1 ∷ [])) 7 1 []
      (record {
        inside = omega arith;
        used = refl;
        owner = refl;
        real = λ e. absurd (omega (arith, e));
      })
      refl live

abbrev call : RpcDesc
call = record {
  caller = 3;
  callee = 2;
  function = 1;
  request = 0x2000;
  request_size = 8;
  response = 0;
  response_size = 0;
}

abbrev request : RpcDesc
request = record call { caller = 0 }

kmt_rpc_call-listen_example :
    (s' s'' : Kmt) × (Rpc.kmt_rpc_call four 2 1 0x2000 8 0 0 0x3000
      ≡ Rpc.switched (kmt_schedule s' 7))
    × IsReady s'
    × (status_of s' 2 ≡ ready)
    × ((s'.threads 0).rpc_return ≡ 0x70000000)
    × (Rpc.kmt_rpc_listen (record s' { current_thread = 2 }) ≡ Rpc.received request s'')
    × ((s''.threads 2).rpc_queue ≡ [])
kmt_rpc_call-listen_example =
    kmt_rpc_call-listen four request 0x3000
      (record {
        inv = four-IsReady;
        known = omega arith;
        waits = refl;
        nothing = refl;
        place = omega arith;
      })
      (record {
        caller = refl;
        other = λ e. absurd (omega (arith, e));
        request = refl;
        response = refl;
        answer = refl;
      })

kmt_rpc_return-rpc_wait_example :
    (s' : Kmt) × (Rpc.kmt_rpc_return four (some (record call { callee = 0 })) 9 ≡ done esuccess s')
    × IsReady s'
    × (status_of s' 3 ≡ ready)
    × ((s'.threads 3).rpc_return ≡ 9)
    × (Rpc.rpc_wait (record s' { current_thread = 3 })
        ≡ Rpc.returned (done esuccess (record s' { current_thread = 3 })))
kmt_rpc_return-rpc_wait_example =
    kmt_rpc_return-rpc_wait four (record call { callee = 0 }) 9 four-IsReady (omega arith)
      (omega arith) refl refl refl refl (λ e. absurd (omega (arith, e)))

one-Calm : Calm four (1 ∷ [])
one-Calm i h = omega arith

age_queue-Aged_example :
    (s' : Kmt) × (age_queue 2 four 5 none 0 ≡ some (done esuccess s')) × Aged four s' (1 ∷ [])
age_queue-Aged_example = age_queue-Aged four 5 (refl, tt) one-Calm

abbrev old : Kmt
old = record four { tcb_pool = λ i. record (pool i) { age = 3 } }

head_promotion_run : age_queue 2 old 5 none 0 ≡ some fault
unfolding age_queue raised kmt_wakeup_thread enqueue
head_promotion_run = refl

asleep : IsAsleep four
asleep = record {
  heap = λ i p l. omega arith;
  known = count-none (unknown 4) four.sleep.sleep_heap 1 (λ i l. refl);
  places = λ id. omega arith;
  tails = λ p h. four-IsReady.tails p h;
}

wake_due-Woke_example :
    (s' : Kmt) × (wake_due 2 four 20 ≡ some (done esuccess s')) × Woke four s' 20
wake_due-Woke_example = wake_due-Woke four 20 asleep

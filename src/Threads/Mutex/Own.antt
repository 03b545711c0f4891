-- ===== src/Threads/Mutex/Own.antt =====
-- Who owns a mutex: `kmt_lock_mutex`, `kmt_unlock_mutex`, `kmt_is_mutex_owned` and `kmt_free_mutex` of
-- c-kernel/syscore/mt/kernel.c.
use pentinum_os.Base.{
  ℕ, ◌<◌, ◌≡◌, ◌≢◌, inl, inr, true, false, List, [], ◌∷◌, ◌==◌, leb, has, arith, refl, sym, ap,
  Bool-cases, none,
}
use pentinum_os.Threads.State.{
  Kmt, done, fault, empty_queue, kmt_queue_push, kmt_queue_is_empty, is_nil, status_of, terminated,
  idle_mutex, esuccess, invalid_u16,
}
use pentinum_os.Threads.Ready.{kmt_schedule}
use pentinum_os.Threads.Mutex.{
  mutex_used, mutex_free, einuse, enotowned, set_mutex, returned, switched, lock_wait,
  kmt_lock_mutex, kmt_unlock_mutex, kmt_is_mutex_owned, kmt_free_mutex, next_waiter, hand_over,
}

-- A mutex in use by the thread `o`.
pub record IsOwned (s : Kmt) (m o : ℕ) : Type 0 where
  pub inside : m < 1024
  pub used : (s.mutex_pool m).flags ≡ mutex_used
  pub owner : (s.mutex_pool m).owner ≡ o
  pub real : o ≢ invalid_u16

module _ (s : Kmt) (m o : ℕ) (v : IsOwned s m o) where
  -- The state in which a thread starts to wait for the mutex.
  abbrev pub queued_up : Kmt
  queued_up = set_mutex s m (record (s.mutex_pool m) {
    waiting = kmt_queue_push (s.mutex_pool m).waiting s.current_thread;
  })

  module _ (other : s.current_thread ≢ o) where
    no_index : leb 1024 m ≡ false
    no_index = ground (arith, v.inside)

    not_free : ((s.mutex_pool m).flags == mutex_free) ≡ false
    not_free = ground (arith, v.used)

    not_mine : ((s.mutex_pool m).owner == s.current_thread) ≡ false
    not_mine = ground (arith, v.owner)

    not_open : ((s.mutex_pool m).owner == invalid_u16) ≡ false
    not_open = ground (arith, v.owner, v.real)

    -- A mutex that another thread owns stays with that thread: the current thread cannot unlock or free
    -- it and is told that it does not own it, and its call of `kmt_lock_mutex` makes it wait, with the
    -- owner unchanged.
    pub mutex_exclusion :
        (kmt_unlock_mutex s m ≡ done enotowned s)
        × (kmt_free_mutex s m ≡ done einuse s)
        × (kmt_is_mutex_owned s m ≡ false)
        × (kmt_lock_mutex s m ≡ switched (kmt_schedule queued_up idle_mutex))
        × IsOwned queued_up m o
    unfolding kmt_unlock_mutex kmt_free_mutex kmt_is_mutex_owned kmt_lock_mutex lock_wait
    mutex_exclusion =
        let self : (m == m) ≡ true = ground arith in
        (
          rw (no_index, not_free, not_mine) refl,
          rw (no_index, not_free, not_open) refl,
          rw (not_free, not_mine) refl,
          rw (no_index, not_free, not_mine, not_open, self) (rw not_mine refl),
          record {
            inside = v.inside;
            used = rw self v.used;
            owner = rw self v.owner;
            real = v.real;
          },
        )

-- A lock of a mutex that no thread owns succeeds at once and makes the current thread the owner; its
-- unlock, while no thread waits, succeeds and gives every mutex back as it was.
pub lock-unlock :
    (s : Kmt) (m : ℕ)
    → m < 1024
    → s.mutex_pool m ≡ record { flags = mutex_used; owner = invalid_u16; waiting = empty_queue }
    → s.current_thread ≢ invalid_u16
    → (s1 s2 : Kmt) × (kmt_lock_mutex s m ≡ returned (done esuccess s1))
      × (kmt_is_mutex_owned s1 m ≡ true)
      × (kmt_unlock_mutex s1 m ≡ done esuccess s2)
      × ((i : ℕ) → s2.mutex_pool i ≡ s.mutex_pool i)
unfolding kmt_unlock_mutex kmt_is_mutex_owned kmt_lock_mutex
lock-unlock s m inside e real =
    let self : (m == m) ≡ true = ground arith in
    let here : leb 1024 m ≡ false = ground arith in
    let me : (invalid_u16 == s.current_thread) ≡ false = ground arith in
    let mine : (s.current_thread == s.current_thread) ≡ true = ground arith in
    (
      set_mutex s m
          (record { flags = mutex_used; owner = s.current_thread; waiting = empty_queue }),
      set_mutex
          (set_mutex s m
            (record { flags = mutex_used; owner = s.current_thread; waiting = empty_queue }))
          m (record { flags = mutex_used; owner = invalid_u16; waiting = empty_queue }),
      rw (here, e, me) refl,
      rw (self, mine) refl,
      rw (here, self, mine) refl,
      λ i. elim (Bool-cases (i == m)) [
        | inl same ↦ let q : i ≡ m = ground arith in rw (same, q) (sym e)
        | inr other ↦ rw other refl
      ],
    )

all_live :
    (s : Kmt) (ids : List ℕ)
    → ((id : ℕ) → has id ids ≡ true → status_of s id ≢ terminated)
    → next_waiter s ids ≡ none
unfolding next_waiter
all_live s [] h = refl
all_live s (id ∷ ids) h =
    let live : (status_of s id == terminated) ≡ false = ground (arith, h id) in
    rw live (all_live s ids (λ a i. h a (ground arith)))

hand_over_faults :
    (s : Kmt) (m : ℕ)
    → ((id : ℕ) → has id (s.mutex_pool m).waiting.items ≡ true → status_of s id ≢ terminated)
    → hand_over s m ≡ fault
unfolding hand_over
hand_over_faults s m live = rw (all_live s (s.mutex_pool m).waiting.items live, hand_over) refl

-- When the owner unlocks a mutex for which threads wait, and none of them has been terminated, the call
-- follows a null pointer: the loop looks for a thread that is terminated.
pub kmt_unlock_mutex_faults :
    (s : Kmt) (m first : ℕ) (others : List ℕ)
    → IsOwned s m s.current_thread
    → (s.mutex_pool m).waiting.items ≡ first ∷ others
    → ((id : ℕ) → has id (first ∷ others) ≡ true → status_of s id ≢ terminated)
    → kmt_unlock_mutex s m ≡ fault
unfolding kmt_unlock_mutex
kmt_unlock_mutex_faults s m first others v e live =
    let here : leb 1024 m ≡ false = ground (arith, v.inside) in
    let used : ((s.mutex_pool m).flags == mutex_free) ≡ false = ground (arith, v.used) in
    let mine : ((s.mutex_pool m).owner == s.current_thread) ≡ true = ground (arith, v.owner) in
    let waits : kmt_queue_is_empty (s.mutex_pool m).waiting ≡ false = ap is_nil e in
    rw (here, used, mine, waits) (hand_over_faults s m (rw e live))

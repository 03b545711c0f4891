-- ===== src/Threads/Mutex/Create.antt =====
-- `kmt_create_mutex` of c-kernel/syscore/mt/kernel.c.
use pentinum_os.Base.{
  ℕ, zero, suc, ◌+◌, ◌≤◌, ◌<◌, ◌≡◌, ◌≢◌, ◌⊎◌, inl, inr, true, false, ◌==◌, leb, Option, none, some,
  arith, refl, sym, ap, ◌∙◌, Bool-cases,
}
use pentinum_os.Threads.State.{Kmt, empty_queue, invalid_u16}
use pentinum_os.Threads.Mutex.{
  mutex_used, mutex_free, pool_full, open_mutex, reuse, find_free, kmt_create_mutex,
}

-- What a search over `n` mutexes from index `i` finds: the first that is free.
abbrev FirstFree : Kmt → ℕ → ℕ → Option ℕ → Type 0
FirstFree s i n none = (j : ℕ) → i ≤ j → j < i + n → (s.mutex_pool j).flags ≢ mutex_free
FirstFree s i n (some m) = (i ≤ m) × (m < i + n) × ((s.mutex_pool m).flags ≡ mutex_free)

find_free-FirstFree : (s : Kmt) (n i : ℕ) → FirstFree s i n (find_free s i n)
unfolding find_free
find_free-FirstFree s zero i = λ j l k. absurd (omega arith)
find_free-FirstFree s (suc n) i = elim (Bool-cases ((s.mutex_pool i).flags == mutex_free)) [
  | inl free ↦ rw free (omega arith, omega arith, ground arith)
  | inr used ↦
      rw used (extend (find_free s (suc i) n) (find_free-FirstFree s n (suc i)) (ground arith))
]
  where
    extend :
        (o : Option ℕ)
        → FirstFree s (suc i) n o
        → (s.mutex_pool i).flags ≢ mutex_free
        → FirstFree s i (suc n) o
    extend none h first = λ j l k. elim (Bool-cases (j == i)) [
      | inl e ↦
          let q : (s.mutex_pool j).flags ≡ (s.mutex_pool i).flags =
            ap (λ t. (s.mutex_pool t).flags) (ground arith) in
          λ z. first (sym q ∙ z)
      | inr e ↦ h j (ground arith) (omega arith)
    ]
    extend (some m) h first = (omega arith, omega arith, h.2)

-- Mutexes that were never handed out are free.
abbrev pub IsFreshPool : Kmt → Type 0
IsFreshPool s = (i : ℕ) → s.alloc_mutex_count ≤ i → (s.mutex_pool i).flags ≡ mutex_free

-- What a successful creation gives: a mutex that was free is in use, without an owner or waiting
-- threads, and the others are as they were.
pub record Created (s s' : Kmt) (m : ℕ) : Type 0 where
  pub inside : m < 1024
  pub was_free : (s.mutex_pool m).flags ≡ mutex_free
  pub now :
      s'.mutex_pool m ≡ record { flags = mutex_used; owner = invalid_u16; waiting = empty_queue }
  pub others : (i : ℕ) → i ≢ m → s'.mutex_pool i ≡ s.mutex_pool i
  pub pool : IsFreshPool s'

opened :
    (s : Kmt) (m : ℕ)
    → (s.mutex_pool m).flags ≡ mutex_free
    → m < 1024
    → IsFreshPool s
    → m < s.alloc_mutex_count
    → Created s (open_mutex s m) m
opened s m free inside pool known =
    let self : (m == m) ≡ true = ground arith in
    record {
      inside = inside;
      was_free = free;
      now = rw self refl;
      others = λ i n. let e : (i == m) ≡ false = ground arith in rw e refl;
      pool = λ i l. let e : (i == m) ≡ false = ground arith in rw e (pool i l);
    }

-- On a pool whose mutexes are free from the count on, `kmt_create_mutex` gives a mutex that was free,
-- or returns the code of a full pool and changes nothing, and then all 1024 mutexes are in use.
pub kmt_create_mutex-Created :
    (s : Kmt)
    → IsFreshPool s
    → ((kmt_create_mutex s ≡ (pool_full, s))
        × ((i : ℕ) → i < 1024 → (s.mutex_pool i).flags ≢ mutex_free))
      ⊎ ((m : ℕ) × (s' : Kmt) × (kmt_create_mutex s ≡ (m, s')) × Created s s' m)
unfolding kmt_create_mutex
kmt_create_mutex-Created s pool = elim (Bool-cases (leb 1024 s.alloc_mutex_count)) [
  | inl full ↦
      rw full (search (find_free s 0 1024) refl (find_free-FirstFree s 1024 0) (ground arith))
  | inr room ↦
      let n : ℕ = s.alloc_mutex_count in
      let self : (n == n) ≡ true = ground arith in
      rw room (
        inr (
          n,
          open_mutex (record s { alloc_mutex_count = suc n }) n,
          refl,
          record {
            inside = ground arith;
            was_free = pool n (omega arith);
            now = rw self refl;
            others = λ i d. let e : (i == n) ≡ false = ground arith in rw e refl;
            pool = λ i l. let e : (i == n) ≡ false = ground arith in rw e (pool i (omega arith));
          },
        ))
]
  where
    search :
        (o : Option ℕ)
        → find_free s 0 1024 ≡ o
        → FirstFree s 0 1024 o
        → 1024 ≤ s.alloc_mutex_count
        → ((reuse s o ≡ (pool_full, s))
            × ((i : ℕ) → i < 1024 → (s.mutex_pool i).flags ≢ mutex_free))
          ⊎ ((m : ℕ) × (s' : Kmt) × (reuse s o ≡ (m, s')) × Created s s' m)
    search none e h full = inl (refl, λ i l. h i (omega arith) (omega arith))
    search (some m) e h full =
        inr (m, open_mutex s m, refl, opened s m h.2 (omega arith) pool (omega arith))

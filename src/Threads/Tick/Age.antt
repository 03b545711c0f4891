-- ===== src/Threads/Tick/Age.antt =====
-- The walk over a ready queue of `kmt_preemptive_intr_handler`, c-kernel/syscore/mt/kernel.c.
use pentinum_os.Base.{
  ℕ, zero, suc, ◌<◌, ◌≡◌, inl, inr, true, false, List, [], ◌∷◌, ◌==◌, leb, ◌%◌, ◌^◌, arith, refl,
  sym, ap, ◌∙◌, Bool-cases, if◌then◌else◌, Option, none, some, get_elem?, has, length, Distinct,
}
use pentinum_os.Threads.State.{Kmt, Tcb, done, esuccess}
use pentinum_os.Threads.Tick.{age_ticks, older, age_queue}

-- The threads of a list one tick older.
abbrev pub aged : List ℕ → (ℕ → Tcb) → ℕ → Tcb
aged ids pool i = if has i ids then record (pool i) { age = suc (pool i).age } else pool i

-- The threads of a queue whose ages leave room for another tick.
abbrev pub Calm : Kmt → List ℕ → Type 0
Calm s ids = (i : ℕ) → has i ids ≡ true → (s.tcb_pool i).age < 3

-- What a walk does that promotes no thread: the threads from `k` on are a tick older.
pub record Aged (s s' : Kmt) (ids : List ℕ) : Type 0 where
  pub tcbs : (i : ℕ) → s'.tcb_pool i ≡ aged ids s.tcb_pool i
  pub queues : s'.ready_queues ≡ s.ready_queues
  pub bitmap : s'.ready_priority_bitmap ≡ s.ready_priority_bitmap
  pub current : s'.current_thread ≡ s.current_thread

abbrev rest_at : List ℕ → ℕ → List ℕ
rest_at xs zero = xs
rest_at [] (suc k) = []
rest_at (x ∷ xs) (suc k) = rest_at xs k

rest_none : (xs : List ℕ) (k : ℕ) → rest_at xs k ≡ [] → get_elem? xs k ≡ none
rest_none [] k e = refl
rest_none (x ∷ xs) zero e = cc
rest_none (x ∷ xs) (suc k) e = rest_none xs k e

rest_some :
    (xs : List ℕ) (k id : ℕ) (ids : List ℕ) → rest_at xs k ≡ id ∷ ids → get_elem? xs k ≡ some id
rest_some [] zero id ids e = cc
rest_some [] (suc k) id ids e = cc
rest_some (x ∷ xs) zero id ids e = cc
rest_some (x ∷ xs) (suc k) id ids e = rest_some xs k id ids e

rest_next :
    (xs : List ℕ) (k id : ℕ) (ids : List ℕ) → rest_at xs k ≡ id ∷ ids → rest_at xs (suc k) ≡ ids
rest_next [] zero id ids e = cc
rest_next [] (suc k) id ids e = cc
rest_next (x ∷ xs) zero id ids e = cc
rest_next (x ∷ xs) (suc k) id ids e = rest_next xs k id ids e

young : (a : ℕ) → a < 3 → suc a % 2 ^ 32 ≡ suc a
young a h = omega arith

older_age :
    (s : Kmt) (id : ℕ)
    → (s.tcb_pool id).age < 3
    → leb age_ticks ((older s id).tcb_pool id).age ≡ false
older_age s id h =
    let self : (id == id) ≡ true = ground arith in
    rw self (ground (arith, young (s.tcb_pool id).age h))

older-Calm :
    (s : Kmt) (id : ℕ) (ids : List ℕ)
    → has id ids ≡ false
    → Calm s (id ∷ ids)
    → Calm (older s id) ids
older-Calm s id ids out h i a =
    let other : (i == id) ≡ false = ground (arith, out, a) in rw other (h i (rw other a))

aged-older :
    (s : Kmt) (id : ℕ) (ids : List ℕ) (i : ℕ)
    → has id ids ≡ false
    → (s.tcb_pool id).age < 3
    → aged ids (older s id).tcb_pool i ≡ aged (id ∷ ids) s.tcb_pool i
aged-older s id ids i out h = elim (Bool-cases (i == id)) [
  | inl here ↦
      let q : i ≡ id = ground arith in
      let o : has i ids ≡ false = rw q out in
      rw (here, o)
        (ap (λ a. record (s.tcb_pool id) { age = a }) (young (s.tcb_pool id).age h)
          ∙ ap (λ j. record (s.tcb_pool j) { age = suc (s.tcb_pool j).age }) (sym q))
  | inr other ↦ rw other refl
]

older_rest :
    (s : Kmt) (id p k : ℕ) (ids : List ℕ)
    → rest_at (s.ready_queues p).items k ≡ ids
    → rest_at ((older s id).ready_queues p).items k ≡ ids
older_rest s id p k ids e = e

age_ends :
    (fuel : ℕ) (s : Kmt) (p : ℕ) (prev : Option ℕ) (k : ℕ)
    → get_elem? (s.ready_queues p).items k ≡ none
    → age_queue (suc fuel) s p prev k ≡ some (done esuccess s)
unfolding age_queue
age_ends fuel s p prev k e = rw (e, age_queue) refl

age_steps :
    (fuel : ℕ) (s : Kmt) (p : ℕ) (prev : Option ℕ) (k id : ℕ)
    → get_elem? (s.ready_queues p).items k ≡ some id
    → leb age_ticks ((older s id).tcb_pool id).age ≡ false
    → age_queue (suc fuel) s p prev k ≡ age_queue fuel (older s id) p (some k) (suc k)
unfolding age_queue
age_steps fuel s p prev k id e f = rw (e, f, age_queue) refl

-- The walk from index `k`, where the threads `ids` are left.
ages :
    (fuel : ℕ) (s : Kmt) (p : ℕ) (prev : Option ℕ) (k : ℕ) (ids : List ℕ)
    → rest_at (s.ready_queues p).items k ≡ ids
    → Distinct ids
    → Calm s ids
    → length ids < fuel
    → (s' : Kmt) × (age_queue fuel s p prev k ≡ some (done esuccess s')) × Aged s s' ids
ages zero s p prev k ids e d h more = ground arith
ages (suc fuel) s p prev k [] e d h more = (
  s,
  age_ends fuel s p prev k (rest_none (s.ready_queues p).items k e),
  record { tcbs = λ i. refl; queues = refl; bitmap = refl; current = refl },
)
ages (suc fuel) s p prev k (id ∷ ids) e d h more =
    let room : (s.tcb_pool id).age < 3 = h id (ground arith) in
    let (s', run, v) =
      ages fuel (older s id) p (some k) (suc k) ids
        (older_rest s id p (suc k) ids (rest_next (s.ready_queues p).items k id ids e)) d.1
        (older-Calm s id ids d.0 h) (ground (arith, more)) in
    (
      s',
      age_steps fuel s p prev k id (rest_some (s.ready_queues p).items k id ids e)
            (older_age s id room)
          ∙ run,
      record {
        tcbs = λ i. v.tcbs i ∙ aged-older s id ids i d.0 room;
        queues = v.queues;
        bitmap = v.bitmap;
        current = v.current;
      },
    )

-- Where no thread of a queue is about to be promoted, the walk over the queue ends, with more fuel than
-- the queue has threads: every thread on it is a tick older, and nothing else has changed.
pub age_queue-Aged :
    (s : Kmt) (p : ℕ)
    → Distinct (s.ready_queues p).items
    → Calm s (s.ready_queues p).items
    → (s' : Kmt) × (age_queue (suc (length (s.ready_queues p).items)) s p none 0
        ≡ some (done esuccess s'))
      × Aged s s' (s.ready_queues p).items
age_queue-Aged s p d h =
    ages (suc (length (s.ready_queues p).items)) s p none 0 (s.ready_queues p).items refl d h
      (omega arith)

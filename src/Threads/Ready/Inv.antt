-- ===== src/Threads/Ready/Inv.antt =====
-- The invariant of the ready queues.
use pentinum_os.Base.{ℕ, ◌≤◌, ◌<◌, ◌≡◌, Bool, true, false, List, [], ◌∷◌, not, has, Distinct}
use pentinum_os.Threads.State.{Kmt, Tail, null, last, status_of, ready, kmt_queue_is_empty}

-- The tail pointer leads nowhere in an empty queue, and to the last node in any other.
abbrev pub TailFits : List ℕ → Tail → Type 0
TailFits [] t = t ≡ null
TailFits (x ∷ xs) t = t ≡ last

abbrev pub queued : Kmt → ℕ → ℕ → Bool
queued s p id = has id (s.ready_queues p).items

-- Each bit tells whether its queue has a thread; a thread is on a queue exactly if it is ready, on one
-- queue at most, and once.
pub record IsReady (s : Kmt) : Type 0 where
  pub bits :
      (p : ℕ) → p < 31 → s.ready_priority_bitmap p ≡ not (kmt_queue_is_empty (s.ready_queues p))
  pub no_bit : (p : ℕ) → 31 ≤ p → s.ready_priority_bitmap p ≡ false
  pub tails : (p : ℕ) → p < 31 → TailFits (s.ready_queues p).items (s.ready_queues p).tail
  pub once : (p : ℕ) → p < 31 → Distinct (s.ready_queues p).items
  pub one_queue :
      (p r id : ℕ) → p < 31 → r < 31 → queued s p id ≡ true → queued s r id ≡ true → p ≡ r
  pub are_ready :
      (p id : ℕ) → p < 31 → queued s p id ≡ true → (status_of s id ≡ ready) × (id < s.thread_count)
  pub are_queued :
      (id : ℕ)
      → id < s.thread_count
      → status_of s id ≡ ready
      → (p : ℕ) × (p < 31) × (queued s p id ≡ true)

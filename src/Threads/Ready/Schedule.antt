-- ===== src/Threads/Ready/Schedule.antt =====
-- `kmt_schedule` of c-kernel/syscore/mt/kernel.c as a whole.
use pentinum_os.Base.{
  ℕ, ◌<◌, ◌≡◌, ◌≢◌, ◌⊎◌, inl, inr, true, false, not, List, [], ◌∷◌, ◌==◌, leb, arith, refl, sym,
  ◌∙◌, update, Option, none, some,
}
use pentinum_os.Threads.State.{
  Kmt, Tcb, Run, done, panic, is_nil, status_of, ready, running, esuccess,
}
use pentinum_os.Threads.Ready.{highest, pick}
use pentinum_os.Threads.Ready.Inv.{queued, IsReady}
use pentinum_os.Threads.Ready.Pick.{
  Highest, highest-Highest, taken, take_eq, taken-IsReady, rest_items,
}

-- A thread that is not ready before and after a change of its entry is on no queue.
pub set_tcb-IsReady :
    (s : Kmt) (id : ℕ) (t : Tcb)
    → IsReady s
    → status_of s id ≢ ready
    → t.status ≢ ready
    → IsReady (record s { tcb_pool = update s.tcb_pool id t })
set_tcb-IsReady s id t v old new = record {
  bits = v.bits;
  no_bit = v.no_bit;
  tails = v.tails;
  once = v.once;
  one_queue = v.one_queue;
  are_ready = λ p a h i. ground (arith, v.are_ready p a h i, old);
  are_queued = λ a l r. v.are_queued a l (ground (arith, new, r));
}

-- What the choice of the next thread gives: the head of the highest queue that is not empty runs.
pub record Picked (s s' : Kmt) : Type 0 where
  pub inv : IsReady s'
  pub runs : status_of s' s'.current_thread ≡ running
  pub known : s'.current_thread < s'.thread_count
  pub level : ℕ
  pub behind : List ℕ
  pub head : (s.ready_queues level).items ≡ s'.current_thread ∷ behind
  pub top : (r : ℕ) → level < r → r < 31 → (s.ready_queues r).items ≡ []
  pub left : (s'.ready_queues level).items ≡ behind
  pub queues : (r : ℕ) → r ≢ level → s'.ready_queues r ≡ s.ready_queues r
  pub tcbs : (a : ℕ) → a ≢ s'.current_thread → s'.tcb_pool a ≡ s.tcb_pool a

-- No thread is ready, or the next one runs.
abbrev pub Picks : Kmt → Run → Type 0
Picks s out =
    (((r : ℕ) → r < 31 → (s.ready_queues r).items ≡ []) × (out ≡ panic))
    ⊎ ((s' : Kmt) × (out ≡ done esuccess s') × Picked s s')

no_items : (xs : List ℕ) → not (is_nil xs) ≡ false → xs ≡ []
no_items [] h = refl
no_items (x ∷ xs) h = cc

some_items : (xs : List ℕ) → not (is_nil xs) ≡ true → (x : ℕ) × (ys : List ℕ) × (xs ≡ x ∷ ys)
some_items [] h = cc
some_items (x ∷ xs) h = (x, xs, refl)

module _ (s : Kmt) (v : IsReady s) where
  empty_above : (p : ℕ) → s.ready_priority_bitmap p ≡ false → p < 31 → (s.ready_queues p).items ≡ []
  empty_above p clear h = no_items (s.ready_queues p).items (sym (v.bits p h) ∙ clear)

  taken-Picked :
      (p x : ℕ) (xs : List ℕ) (place : p < 31) (front : (s.ready_queues p).items ≡ x ∷ xs)
      → ((r : ℕ) → p < r → r < 32 → s.ready_priority_bitmap r ≡ false)
      → Picked s (taken s v p x xs place front)
  taken-Picked p x xs place front above = record {
    inv = taken-IsReady s v p x xs place front;
    runs = ground arith;
    known = let i : queued s p x ≡ true = rw front (ground arith) in (v.are_ready p x place i).1;
    level = p;
    behind = xs;
    head = front;
    top = λ r l k. empty_above r (above r l (omega arith)) k;
    left = ground (arith, rest_items xs (s.ready_queues p).tail);
    queues = λ r n. let e : (r == p) ≡ false = ground arith in rw e refl;
    tcbs = λ a n. let e : (a == x) ≡ false = ground arith in rw e refl;
  }

  Picks-from :
      (o : Option ℕ)
      → highest s.ready_priority_bitmap 32 ≡ o
      → Highest s.ready_priority_bitmap 32 o
      → Picks s (pick s)
  unfolding pick
  Picks-from none e h = rw (e, pick) (inl (λ r k. empty_above r (h r (omega arith)) k, refl))
  Picks-from (some p) e h =
      let place : p < 31 = ground (arith, h.1, v.no_bit p) in
      let inside : leb 31 p ≡ false = ground arith in
      let (x, xs, front) = some_items (s.ready_queues p).items (sym (v.bits p place) ∙ h.1) in
      rw (e, pick)
        (rw (inside, take_eq s v p x xs place front)
          (inr (taken s v p x xs place front, refl, taken-Picked p x xs place front h.2)))

  pub pick-Picks : Picks s (pick s)
  pick-Picks =
      Picks-from (highest s.ready_priority_bitmap 32) refl
        (highest-Highest s.ready_priority_bitmap 32)

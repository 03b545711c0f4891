-- ===== src/Threads/Tick/Round.antt =====
-- A round of the loop over the sleepers of `kmt_preemptive_intr_handler`, c-kernel/syscore/mt/kernel.c.
use mathlib.Core.List.{append_assoc}
use mathlib.Core.Path.{subst}
use pentinum_os.Base.{
  ℕ, ◌<◌, ◌≡◌, ◌≢◌, inl, inr, true, false, not, ◌||◌, List, [], ◌∷◌, ◌++◌, ◌==◌, leb, has,
  has-append, append_nil_right, arith, refl, sym, ap, ◌∙◌, Bool-cases, update, if◌then◌else◌,
}
use pentinum_os.Threads.State.{
  Kmt, Tcb, done, kmt_queue_push, set_status, status_of, ready, idle, esuccess, is_nil,
}
use pentinum_os.Threads.Sleep.{kmt_pop_sleep_heap}
use pentinum_os.Threads.Sleep.Count.{bit}
use pentinum_os.Threads.Sleep.Queue.{requests, Removed}
use pentinum_os.Threads.Ready.{kmt_wakeup_thread, enqueue}
use pentinum_os.Threads.Ready.Wake.{pushed_items, pushed-TailFits}
use pentinum_os.Threads.Tick.{is_due, wake_root}
use pentinum_os.Threads.Tick.Woken.{due_for, later, unknown, IsAsleep, IsWoken, Gains, Woke}

-- The state after an idle thread has been put on its queue.
abbrev pub queued : Kmt → ℕ → Kmt
queued s id =
    set_status
      (record s {
        ready_queues =
            update s.ready_queues (s.tcb_pool id).priority
              (kmt_queue_push (s.ready_queues (s.tcb_pool id).priority) id);
        ready_priority_bitmap = update s.ready_priority_bitmap (s.tcb_pool id).priority true;
      })
      id ready

idle_wakes :
    (s : Kmt) (id : ℕ)
    → id < s.thread_count
    → status_of s id ≡ idle
    → (s.tcb_pool id).priority < 31
    → kmt_wakeup_thread s id ≡ done esuccess (queued s id)
unfolding kmt_wakeup_thread enqueue
idle_wakes s id known waits place =
    let a : leb s.thread_count id ≡ false = ground arith in
    let b : leb 31 (s.tcb_pool id).priority ≡ false = ground arith in rw (a, waits, b) refl

has_gain : (xs ys added : List ℕ) (i : ℕ) → has i xs ≡ true → ys ≡ xs ++ added → has i ys ≡ true
has_gain xs ys added i h e = rw (e, has-append i xs added, h) refl

-- A round of the loop, where the root of the heap is due.
module _ (s : Kmt) (now : ℕ) (v : IsAsleep s) (r : Removed s.sleep (kmt_pop_sleep_heap s.sleep))
    (full : is_due s.sleep now ≡ true) where
  abbrev pub id : ℕ
  id = (s.sleep.sleep_heap 0).thread_id

  abbrev pub taken : Kmt
  taken = set_status (record s { sleep = kmt_pop_sleep_heap s.sleep }) id idle

  abbrev pub next : Kmt
  next = queued taken id

  abbrev place : ℕ
  place = (s.tcb_pool id).priority

  same_place : (taken.tcb_pool id).priority ≡ place
  same_place = ground arith

  root_known : id < s.thread_count
  root_known = ground (arith, r.same (unknown s.thread_count), v.known)

  root_due :
      (other : ℕ) → bit (due_for now other (s.sleep.sleep_heap 0)) ≡ (if other == id then 1 else 0)
  root_due other = ground (arith, full)

  pub round : wake_root s ≡ done esuccess next
  unfolding wake_root
  round = idle_wakes taken id root_known (ground arith) (ground (arith, v.places id))

  round_tcb :
      (i : ℕ)
      → next.tcb_pool i
        ≡ (if i == id then record (s.tcb_pool id) { status = ready } else s.tcb_pool i)
  round_tcb i = elim (Bool-cases (i == id)) [
    | inl here ↦ let self : (id == id) ≡ true = ground arith in rw (here, self) refl
    | inr other ↦ rw other refl
  ]

  round_priority : (i : ℕ) → (next.tcb_pool i).priority ≡ (s.tcb_pool i).priority
  round_priority i = elim (Bool-cases (i == id)) [
    | inl here ↦ let q : i ≡ id = ground arith in rw (round_tcb i, here, q) refl
    | inr other ↦ rw (round_tcb i, other) refl
  ]

  round_items :
      (p : ℕ)
      → (next.ready_queues p).items
        ≡ (s.ready_queues p).items ++ (if p == place then id ∷ [] else [])
  round_items p =
      let fits = v.tails place (v.places id) in
      let self : (id == id) ≡ true = ground arith in
      elim (Bool-cases (p == place)) [
        | inl here ↦
            let q : p ≡ place = ground arith in
            rw (self, here, q)
              (pushed_items (s.ready_queues place).tail (s.ready_queues place).items id fits)
        | inr other ↦ rw (self, other) (sym (append_nil_right (s.ready_queues p).items))
      ]

  round_bits :
      (p : ℕ)
      → next.ready_priority_bitmap p
        ≡ (s.ready_priority_bitmap p || not (is_nil (if p == place then id ∷ [] else [])))
  round_bits p =
      let self : (id == id) ≡ true = ground arith in
      elim (Bool-cases (p == place)) [
        | inl here ↦ rw (self, here) (ground arith)
        | inr other ↦ rw (self, other) (ground arith)
      ]

  pub round-IsAsleep : IsAsleep next
  round-IsAsleep = record {
    heap = r.heap;
    known = omega (arith, r.same (unknown s.thread_count), v.known);
    places = λ i. ground (arith, round_priority i, v.places i);
    tails = λ p h.
        let self : (id == id) ≡ true = ground arith in
        elim (Bool-cases (p == place)) [
          | inl here ↦
              rw (self, here)
                (pushed-TailFits (s.ready_queues place).tail (s.ready_queues place).items id
                  (v.tails place (v.places id)))
          | inr other ↦ rw (self, other) (v.tails p h)
        ];
  }

  round_here : has id (next.ready_queues place).items ≡ true
  round_here =
      let here : (place == place) ≡ true = ground arith in
      let added : (next.ready_queues place).items ≡ (s.ready_queues place).items ++ id ∷ [] =
        round_items place ∙ rw here refl in
      rw (added, has-append id (s.ready_queues place).items (id ∷ [])) (ground arith)

  -- The first thread is woken by the round, and stays so if it has no other due request.
  first-IsWoken :
      (s' : Kmt) → Gains next s' now place → s'.tcb_pool id ≡ next.tcb_pool id → IsWoken s s' id
  first-IsWoken s' g same =
      let self : (id == id) ≡ true = ground arith in
      let here : (place == place) ≡ true = ground arith in
      let bit_here : next.ready_priority_bitmap place ≡ true =
        round_bits place ∙ rw here (ground arith) in
      (
        same ∙ round_tcb id ∙ rw self refl,
        has_gain (next.ready_queues place).items (s'.ready_queues place).items g.0 id round_here
            g.1,
        g.2 ∙ ap (λ b. b || not (is_nil g.0)) bit_here,
      )

  -- A thread that the rest of the loop wakes.
  rest-IsWoken : (s' : Kmt) (i : ℕ) → IsWoken next s' i → IsWoken s s' i
  rest-IsWoken s' i w = (
    w.0 ∙ forget,
    subst (λ p. has i (s'.ready_queues p).items ≡ true) (round_priority i) w.1,
    subst (λ p. s'.ready_priority_bitmap p ≡ true) (round_priority i) w.2,
  )
    where
      forget :
          Path Tcb
            (record (next.tcb_pool i) { status = ready })
            (record (s.tcb_pool i) { status = ready })
      forget = elim (Bool-cases (i == id)) [
        | inl here ↦ let q : i ≡ id = ground arith in rw (round_tcb i, here, q) refl
        | inr other ↦ rw (round_tcb i, other) refl
      ]

  rest-Gains : (s' : Kmt) (p : ℕ) → Gains next s' now p → Gains s s' now p
  rest-Gains s' p g = elim (Bool-cases (p == place)) [
    | inl here ↦ (
      id ∷ g.0,
      g.1
          ∙ ap (λ xs. xs ++ g.0) (round_items p ∙ rw here refl)
          ∙ append_assoc (s.ready_queues p).items (id ∷ []) g.0,
      g.2 ∙ ap (λ b. b || not (is_nil g.0)) (round_bits p) ∙ rw here (ground arith),
      λ i a. elim (Bool-cases (i == id)) [
        | inl mine ↦
            let q : i ≡ id = ground arith in
            (
              λ z. absurd (ground (arith, r.same (due_for now i), root_due i, mine, z)),
              ap (λ j. (s.tcb_pool j).priority) q ∙ sym (ground arith),
            )
        | inr other ↦ old i (g.3 i (ground arith))
      ],
    )
    | inr other ↦ (
      g.0,
      g.1
          ∙ ap (λ xs. xs ++ g.0)
              (round_items p ∙ rw other (append_nil_right (s.ready_queues p).items)),
      g.2 ∙ ap (λ b. b || not (is_nil g.0)) (round_bits p) ∙ rw other (ground arith),
      λ i a. old i (g.3 i a),
    )
  ]
    where
      old :
          (i : ℕ)
          → (requests (due_for now i) next.sleep ≢ 0) × ((next.tcb_pool i).priority ≡ p)
          → (requests (due_for now i) s.sleep ≢ 0) × ((s.tcb_pool i).priority ≡ p)
      old i (d, e) = (λ z. d (omega (arith, r.same (due_for now i), z)), sym (round_priority i) ∙ e)

  round_others : (i : ℕ) → i ≢ id → next.tcb_pool i ≡ s.tcb_pool i
  round_others i d = let e : (i == id) ≡ false = ground arith in round_tcb i ∙ rw e refl

  pub round-Woke : (s' : Kmt) → Woke next s' now → Woke s s' now
  round-Woke s' w = record {
    heap = w.heap;
    settled = w.settled;
    kept = λ q.
        let no : bit (later now q (s.sleep.sleep_heap 0)) ≡ 0 = ground (arith, full) in
        omega (arith, r.same (later now q), no, w.kept q);
    due = λ i d. elim (Bool-cases (i == id)) [
      | inl here ↦
          let q : i ≡ id = ground arith in
          elim (Bool-cases (requests (due_for now i) (kmt_pop_sleep_heap s.sleep) == 0)) [
            | inl last ↦ rw q (
                first-IsWoken s' (w.gains place (v.places id))
                  (w.others id (ground (arith, last, q))))
            | inr more ↦ rest-IsWoken s' i (w.due i (ground arith))
          ]
      | inr other ↦
          rest-IsWoken s' i
            (w.due i (λ e. d (ground (arith, r.same (due_for now i), root_due i, e, other))))
    ];
    gains = λ p h. rest-Gains s' p (w.gains p h);
    others = λ i e.
        let sum = r.same (due_for now i) in
        let d : (i == id) ≡ false = ground (arith, root_due i) in
        w.others i (omega (arith, sum, e)) ∙ round_others i (ground arith);
    current = w.current;
  }

-- ===== src/Threads/Ready/Pick.antt =====
-- The choice of the next thread in `kmt_schedule` of c-kernel/syscore/mt/kernel.c.
use pentinum_os.Base.{
  ℕ, zero, suc, ◌<◌, ◌≡◌, inl, inr, Bool, true, false, ◌||◌, List, [], ◌∷◌, ◌==◌, has, Distinct,
  arith, refl, ap, ◌∙◌, Bool-cases, update, if◌then◌else◌, Option, none, some,
}
use pentinum_os.Threads.State.{
  Kmt, Queue, Tail, pop_of, done, empty_queue, is_nil, set_status, status_of, ready, running,
  esuccess,
}
use pentinum_os.Threads.Ready.{highest, take_from}
use pentinum_os.Threads.Ready.Inv.{TailFits, queued, IsReady}

-- The highest bit among the first `n`, if one is set.
abbrev pub Highest : (ℕ → Bool) → ℕ → Option ℕ → Type 0
Highest bits n none = (p : ℕ) → p < n → bits p ≡ false
Highest bits n (some p) = (p < n) × (bits p ≡ true) × ((r : ℕ) → p < r → r < n → bits r ≡ false)

pub highest-Highest : (bits : ℕ → Bool) (n : ℕ) → Highest bits n (highest bits n)
unfolding highest
highest-Highest bits zero = λ p h. absurd (omega arith)
highest-Highest bits (suc n) = elim (Bool-cases (bits n)) [
  | inl set ↦ rw set (omega arith, set, λ r h k. absurd (omega arith))
  | inr clear ↦ rw clear (above (highest bits n) clear (highest-Highest bits n))
]
  where
    top : (p : ℕ) → bits n ≡ false → p ≡ n → bits p ≡ false
    top p clear e = ap bits e ∙ clear

    above : (o : Option ℕ) → bits n ≡ false → Highest bits n o → Highest bits (suc n) o
    above none clear h = λ p l. elim (Bool-cases (p == n)) [
      | inl e ↦ top p clear (ground arith)
      | inr e ↦ h p (ground arith)
    ]
    above (some p) clear h = (
      omega arith,
      h.1,
      λ r l k. elim (Bool-cases (r == n)) [
        | inl e ↦ top r clear (ground arith)
        | inr e ↦ h.2 r l (ground arith)
      ],
    )

-- A queue without its head.
abbrev pub rest_queue : List ℕ → Tail → Queue
rest_queue [] t = empty_queue
rest_queue (y ∷ ys) t = record { items = y ∷ ys; tail = t }

pop_eq : (x : ℕ) (xs : List ℕ) (t : Tail) → pop_of (x ∷ xs) t ≡ some (x, rest_queue xs t)
pop_eq x [] t = refl
pop_eq x (y ∷ ys) t = refl

pub rest_items : (xs : List ℕ) (t : Tail) → (rest_queue xs t).items ≡ xs
rest_items [] t = refl
rest_items (y ∷ ys) t = refl

rest-TailFits :
    (x : ℕ) (xs : List ℕ) (t : Tail)
    → TailFits (x ∷ xs) t
    → TailFits (rest_queue xs t).items (rest_queue xs t).tail
rest-TailFits x [] t h = refl
rest-TailFits x (y ∷ ys) t h = h

module _ (s : Kmt) (v : IsReady s) (p x : ℕ) (xs : List ℕ) (place : p < 31)
    (front : (s.ready_queues p).items ≡ x ∷ xs) where
  abbrev rest : Queue
  rest = rest_queue xs (s.ready_queues p).tail

  abbrev pub taken : Kmt
  taken =
      set_status
        (record s {
          ready_queues = update s.ready_queues p rest;
          ready_priority_bitmap =
              if is_nil rest.items
              then update s.ready_priority_bitmap p false
              else s.ready_priority_bitmap;
          current_thread = x;
        })
        x running

  x_queued : queued s p x ≡ true
  x_queued = rw front (ground arith)

  pub take_eq : take_from s p ≡ done esuccess taken
  unfolding take_from
  take_eq =
      let e : (status_of s x == ready) ≡ true = ground (arith, v.are_ready p x place x_queued) in
      rw (front, pop_eq x xs (s.ready_queues p).tail, take_from) (rw e refl)

  distinct : Distinct (x ∷ xs)
  distinct = let d = v.once p place in rw front at d

  taken-queued : (r a : ℕ) → r < 31 → queued taken r a ≡ (if r == p then has a xs else queued s r a)
  taken-queued r a h = elim (Bool-cases (r == p)) [
    | inl here ↦ rw (here, rest_items xs (s.ready_queues p).tail) refl
    | inr there ↦ rw there refl
  ]

  was_queued : (a : ℕ) → queued s p a ≡ ((a == x) || has a xs)
  was_queued a = rw front refl

  pub taken-IsReady : IsReady taken
  taken-IsReady = record {
    bits = λ r h. elim (Bool-cases (is_nil rest.items)) [
      | inl gone ↦ rw gone (elim (Bool-cases (r == p)) [
        | inl here ↦ rw (here, gone) refl
        | inr there ↦ rw there (v.bits r h)
      ])
      | inr more ↦ rw more (elim (Bool-cases (r == p)) [
        | inl here ↦
            let q : r ≡ p = ground arith in rw (here, more, q) (v.bits p place ∙ rw front refl)
        | inr there ↦ rw there (v.bits r h)
      ])
    ];
    no_bit = λ r h.
        let e : (r == p) ≡ false = ground arith in
        elim (Bool-cases (is_nil rest.items)) [
          | inl gone ↦ rw (gone, e) (v.no_bit r h)
          | inr more ↦ rw more (v.no_bit r h)
        ];
    tails = λ r h. elim (Bool-cases (r == p)) [
      | inl here ↦
          let fits = v.tails p place in
          let old : TailFits (x ∷ xs) (s.ready_queues p).tail = rw front at fits in
          rw here (rest-TailFits x xs (s.ready_queues p).tail old)
      | inr there ↦ rw there (v.tails r h)
    ];
    once = λ r h. elim (Bool-cases (r == p)) [
      | inl here ↦ rw (here, rest_items xs (s.ready_queues p).tail) distinct.1
      | inr there ↦ rw there (v.once r h)
    ];
    one_queue = λ q r a h k i j.
        ground (arith, taken-queued q a h, taken-queued r a k, was_queued a, v.one_queue q r a h k);
    are_ready = λ r a h i. ground (
      arith,
      taken-queued r a h,
      was_queued a,
      v.are_ready r a h,
      distinct.0,
      x_queued,
      v.one_queue r p x h place,
    );
    are_queued = λ a l r.
        let (q, h, i) = v.are_queued a l (ground arith) in
        (q, h, ground (arith, taken-queued q a h, was_queued a));
  }

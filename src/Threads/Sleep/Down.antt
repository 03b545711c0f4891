-- ===== src/Threads/Sleep/Down.antt =====
-- The removal from the sleep heap, `kmt_pop_sleep_heap` in c-kernel/syscore/mt/kernel.c.
use pentinum_os.Base.{
  ℕ, zero, suc, ◌+◌, ◌-◌, ◌*◌, ◌/◌, ◌≤◌, ◌<◌, ◌≡◌, ◌≢◌, ◌==◌, ◌⊎◌, inl, inr, false, arith, ap,
  Bool-cases,
}
use pentinum_os.Threads.Sleep.{Slots, swap, time, smallest_of, sift_down}
use pentinum_os.Threads.Sleep.Order.{Ordered, time-swap}

-- The order holds but between `idx` and its children, which are no earlier than the parent of `idx`.
pub record OrderedAbove (h : Slots) (n idx : ℕ) : Type 0 where
  pub others : (i : ℕ) → 0 < i → i < n → (i - 1) / 2 ≢ idx → time h ((i - 1) / 2) ≤ time h i
  pub above :
      (i : ℕ) → 0 < i → i < n → (i - 1) / 2 ≡ idx → 0 < idx → time h ((idx - 1) / 2) ≤ time h i

-- What the choice of the smallest gives: the node itself or a child, and no child is earlier.
abbrev pub Chosen : Slots → ℕ → ℕ → ℕ → Type 0
Chosen h n idx s =
    ((s ≡ idx) ⊎ ((0 < s) × (s < n) × ((s - 1) / 2 ≡ idx) × (time h s < time h idx)))
    × ((i : ℕ) → 0 < i → i < n → (i - 1) / 2 ≡ idx → time h s ≤ time h i)

pub smallest_of-Chosen : (h : Slots) (n idx : ℕ) → Chosen h n idx (smallest_of h n idx)
unfolding smallest_of
smallest_of-Chosen h n idx = (
  ground arith,
  λ i p q r. elim (Bool-cases (i == idx * 2 + 1)) [
    | inl left ↦
        let e : time h i ≡ time h (idx * 2 + 1) = ap (time h) (ground arith) in ground arith
    | inr right ↦
        let e : time h i ≡ time h (idx * 2 + 2) = ap (time h) (ground arith) in ground arith
  ],
)

module _ (h : Slots) (n idx s : ℕ) (o : OrderedAbove h n idx) (c : Chosen h n idx s) where
  stays : s ≡ idx → Ordered h n
  stays e i p q = elim (Bool-cases ((i - 1) / 2 == idx)) [
    | inl child ↦
        let f : time h ((i - 1) / 2) ≡ time h idx = ap (time h) (ground arith) in
        let g : time h s ≡ time h idx = ap (time h) e in ground (arith, c.1 i p q)
    | inr other ↦ o.others i p q (ground arith)
  ]

  module _ (down : s ≢ idx) where
    abbrev moved : Slots
    moved = swap h s idx

    child_facts : (0 < s) × (s < n) × ((s - 1) / 2 ≡ idx) × (time h s < time h idx)
    child_facts = ground (arith, c.0)

    moved_others :
        (i : ℕ) → 0 < i → i < n → (i - 1) / 2 ≢ s → time moved ((i - 1) / 2) ≤ time moved i
    moved_others i p q r =
        let at_i = time-swap h s idx i in
        let at_up = time-swap h s idx ((i - 1) / 2) in
        elim (Bool-cases ((i - 1) / 2 == idx)) [
          | inl child ↦
              let small = c.1 i p q (ground arith) in
              let apart : (i == idx) ≡ false = ground arith in
              ground (arith, at_i, at_up, child_facts)
          | inr other ↦
              let old = o.others i p q (ground arith) in
              let grand = o.above s child_facts.0 child_facts.1 child_facts.2 in
              let up : i ≡ idx → time h ((i - 1) / 2) ≡ time h ((idx - 1) / 2) =
                λ e. ap (λ t. time h ((t - 1) / 2)) e in
              ground (arith, at_i, at_up, child_facts)
        ]

    moved_above :
        (i : ℕ) → 0 < i → i < n → (i - 1) / 2 ≡ s → 0 < s → time moved ((s - 1) / 2) ≤ time moved i
    moved_above i p q r u =
        let at_i = time-swap h s idx i in
        let at_up = time-swap h s idx ((s - 1) / 2) in
        let old = o.others i p q (ground (arith, child_facts)) in
        let e : time h ((i - 1) / 2) ≡ time h s = ap (time h) r in
        ground (arith, at_i, at_up, child_facts)

    moved-OrderedAbove : OrderedAbove moved n s
    moved-OrderedAbove = record { others = moved_others; above = moved_above }

pub sift_down-Ordered :
    (fuel : ℕ) (h : Slots) (n idx : ℕ)
    → n ≤ idx + fuel
    → OrderedAbove h n idx
    → Ordered (sift_down fuel h n idx) n
unfolding sift_down
sift_down-Ordered zero h n idx a o = λ i p q. o.others i p q (omega arith)
sift_down-Ordered (suc fuel) h n idx a o =
    let s = smallest_of h n idx in
    let c = smallest_of-Chosen h n idx in
    elim (Bool-cases (s == idx)) [
      | inl same ↦ rw same (stays h n idx s o c (ground arith))
      | inr down ↦ rw down (
          sift_down-Ordered fuel (swap h s idx) n s (ground (arith, c.0))
            (moved-OrderedAbove h n idx s o c (ground arith)))
    ]

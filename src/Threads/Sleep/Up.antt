-- ===== src/Threads/Sleep/Up.antt =====
-- The insertion into the sleep heap, of `kmt_sleep_until` in c-kernel/syscore/mt/kernel.c.
use pentinum_os.Base.{
  ℕ, zero, suc, ◌-◌, ◌/◌, ◌≤◌, ◌<◌, ◌≡◌, ◌≢◌, ◌==◌, leb, arith, Bool-cases, inl, inr, ◌⊎◌, ap, true,
  false,
}
use pentinum_os.Threads.Sleep.{Slots, swap, time, sift_up}
use pentinum_os.Threads.Sleep.Order.{Ordered, time-swap}

-- The order holds but between `idx` and its parent, and the children of `idx` are no earlier than that
-- parent.
pub record OrderedBut (h : Slots) (n idx : ℕ) : Type 0 where
  pub others : (i : ℕ) → 0 < i → i < n → i ≢ idx → time h ((i - 1) / 2) ≤ time h i
  pub below :
      (i : ℕ) → 0 < i → i < n → (i - 1) / 2 ≡ idx → 0 < idx → time h ((idx - 1) / 2) ≤ time h i

module _ (h : Slots) (n idx : ℕ) (b : idx < n) (o : OrderedBut h n idx) where
  abbrev parent : ℕ
  parent = (idx - 1) / 2

  stays : (idx ≡ 0) ⊎ (time h parent ≤ time h idx) → Ordered h n
  stays c i p q = elim (Bool-cases (i == idx)) [
    | inl here ↦
        let e : i ≡ idx = ground arith in
        let f : time h i ≡ time h idx = ap (time h) e in
        let g : time h ((i - 1) / 2) ≡ time h parent = ap (λ t. time h ((t - 1) / 2)) e in
        ground (arith, c)
    | inr other ↦ o.others i p q (ground arith)
  ]

  module _ (down : idx ≢ 0) (early : time h idx < time h parent) where
    abbrev moved : Slots
    moved = swap h parent idx

    moved_others : (i : ℕ) → 0 < i → i < n → i ≢ parent → time moved ((i - 1) / 2) ≤ time moved i
    moved_others i p q r =
        let at_i = time-swap h parent idx i in
        let at_up = time-swap h parent idx ((i - 1) / 2) in
        elim (Bool-cases (i == idx)) [
          | inl here ↦
              let e : i ≡ idx = ground arith in
              let g : ((i - 1) / 2 == parent) ≡ true = ground (arith, ap (λ t. (t - 1) / 2) e) in
              let k : ((i - 1) / 2 == idx) ≡ false = ground arith in ground (arith, at_i, at_up)
          | inr other ↦
              let old = o.others i p q (ground arith) in
              let child : (i - 1) / 2 ≡ parent → time h ((i - 1) / 2) ≡ time h parent =
                λ e. ap (time h) e in
              let low = o.below i p q in ground (arith, at_i, at_up)
        ]

    moved_below :
        (i : ℕ)
        → 0 < i
        → i < n
        → (i - 1) / 2 ≡ parent
        → 0 < parent
        → time moved ((parent - 1) / 2) ≤ time moved i
    moved_below i p q r s =
        let at_i = time-swap h parent idx i in
        let at_up = time-swap h parent idx ((parent - 1) / 2) in
        let grand = o.others parent s (omega arith) (omega arith) in
        elim (Bool-cases (i == idx)) [
          | inl here ↦ ground (arith, at_i, at_up)
          | inr other ↦
              let old = o.others i p q (ground arith) in
              let child : time h ((i - 1) / 2) ≡ time h parent = ap (time h) r in
              ground (arith, at_i, at_up)
        ]

    moved-OrderedBut : OrderedBut moved n parent
    moved-OrderedBut = record { others = moved_others; below = moved_below }

pub sift_up-Ordered :
    (fuel : ℕ) (h : Slots) (n idx : ℕ)
    → idx ≤ fuel
    → idx < n
    → OrderedBut h n idx
    → Ordered (sift_up fuel h idx) n
unfolding sift_up
sift_up-Ordered zero h n idx a b o = stays h n idx b o (inl (omega arith))
sift_up-Ordered (suc fuel) h n idx a b o = elim (Bool-cases (idx == 0)) [
  | inl root ↦ rw root (stays h n idx b o (inl (ground arith)))
  | inr down ↦ rw down (elim (Bool-cases (leb (time h ((idx - 1) / 2)) (time h idx))) [
    | inl sorted ↦ rw sorted (stays h n idx b o (inr (ground arith)))
    | inr early ↦ rw early (
        sift_up-Ordered fuel (swap h ((idx - 1) / 2) idx) n ((idx - 1) / 2) (ground arith)
          (omega arith) (moved-OrderedBut h n idx b o (ground arith) (ground arith)))
  ])
]

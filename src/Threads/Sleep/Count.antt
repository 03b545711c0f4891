-- ===== src/Threads/Sleep/Count.antt =====
-- The requests that the sleep heap of c-kernel/syscore/mt/kernel.c holds, whatever their places.
use pentinum_os.Base.{
  ℕ, zero, suc, ◌+◌, ◌-◌, ◌/◌, ◌≤◌, ◌<◌, ◌≡◌, ◌==◌, inl, inr, leb, Bool, if◌then◌else◌, arith, refl,
  ap, Bool-cases, ◌∙◌, false,
}
use pentinum_os.Threads.Sleep.{
  SleepRequest, Slots, set_slot, swap, time, smallest_of, sift_down, sift_up,
}
use pentinum_os.Threads.Sleep.Down.{smallest_of-Chosen}

abbrev pub bit : Bool → ℕ
bit b = if b then 1 else 0

module _ (q : SleepRequest → Bool) where
  -- How many of the first `n` slots hold a request with the property `q`.
  pub count : Slots → ℕ → ℕ
  count h zero = 0
  count h (suc n) = bit (q (h n)) + count h n

  pub count-none : (h : Slots) (n : ℕ) → ((i : ℕ) → i < n → q (h i) ≡ false) → count h n ≡ 0
  unfolding count
  count-none h zero e = refl
  count-none h (suc n) e =
      rw (e n (omega arith)) (omega (arith, count-none h n (λ i l. e i (omega (arith, l)))))

  pub count-suc : (h : Slots) (n : ℕ) → count h (suc n) ≡ bit (q (h n)) + count h n
  unfolding count
  count-suc h n = refl

  count-out :
      (h : Slots) (i : ℕ) (r : SleepRequest) (n : ℕ) → n ≤ i → count (set_slot h i r) n ≡ count h n
  unfolding count set_slot
  count-out h i r zero l = refl
  count-out h i r (suc n) l =
      let apart : (n == i) ≡ false = ground arith in
      rw apart (ap (λ t. bit (q (h n)) + t) (count-out h i r n (omega arith)))

  pub count-set :
      (h : Slots) (i : ℕ) (r : SleepRequest) (n : ℕ)
      → i < n
      → count (set_slot h i r) n + bit (q (h i)) ≡ count h n + bit (q r)
  unfolding count set_slot
  count-set h i r zero l = absurd (omega arith)
  count-set h i r (suc n) l = elim (Bool-cases (n == i)) [
    | inl here ↦
        let e : bit (q (h n)) ≡ bit (q (h i)) = ap (λ t. bit (q (h t))) (ground arith) in
        rw here (omega (arith, count-out h i r n (ground arith), e))
    | inr there ↦ rw there (omega (arith, count-set h i r n (ground arith)))
  ]

  -- A request in a new last slot.
  pub count-last :
      (h : Slots) (r : SleepRequest) (n : ℕ)
      → count (set_slot h n r) (suc n) ≡ bit (q r) + count h n
  count-last h r n = omega (arith, count-set h n r (suc n) (omega arith), count-suc h n)

  count-swap : (h : Slots) (i j n : ℕ) → i < n → j < n → count (swap h i j) n ≡ count h n
  unfolding set_slot
  count-swap h i j n a b =
      let first = count-set h i (h j) n a in
      let second = count-set (set_slot h i (h j)) j (h i) n b in
      elim (Bool-cases (j == i)) [
        | inl same ↦
            let e : bit (q (h j)) ≡ bit (q (h i)) = ap (λ t. bit (q (h t))) (ground arith) in
            let k : bit (q (set_slot h i (h j) j)) ≡ bit (q (h j)) = rw same refl in
            omega (arith, first, second, k, e)
        | inr other ↦
            let k : bit (q (set_slot h i (h j) j)) ≡ bit (q (h j)) = rw other refl in
            omega (arith, first, second, k)
      ]

  pub count-sift_up :
      (fuel : ℕ) (h : Slots) (n idx : ℕ) → idx < n → count (sift_up fuel h idx) n ≡ count h n
  unfolding sift_up
  count-sift_up zero h n idx l = refl
  count-sift_up (suc fuel) h n idx l =
      let parent : ℕ = (idx - 1) / 2 in
      elim (Bool-cases (idx == 0)) [
        | inl root ↦ rw root refl
        | inr down ↦ rw down (elim (Bool-cases (leb (time h ((idx - 1) / 2)) (time h idx))) [
          | inl sorted ↦ rw sorted refl
          | inr early ↦ rw early (
              count-sift_up fuel (swap h parent idx) n parent (omega arith)
              ∙ count-swap h parent idx n (omega arith) l)
        ])
      ]

  pub count-sift_down :
      (fuel : ℕ) (h : Slots) (n idx : ℕ) → idx < n → count (sift_down fuel h n idx) n ≡ count h n
  unfolding sift_down
  count-sift_down zero h n idx l = refl
  count-sift_down (suc fuel) h n idx l =
      let c = smallest_of-Chosen h n idx in
      let within : smallest_of h n idx < n = ground (arith, c.0) in
      elim (Bool-cases (smallest_of h n idx == idx)) [
        | inl same ↦ rw same refl
        | inr down ↦ rw down (
            count-sift_down fuel (swap h (smallest_of h n idx) idx) n (smallest_of h n idx) within
            ∙ count-swap h (smallest_of h n idx) idx n within l)
      ]

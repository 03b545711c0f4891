-- ===== src/Cstd/Scan.antt =====
-- `strlen` and `strcmp` of c-kernel/utils/cstdlib.c.
use pentinum_os.Base.{
  ℕ, zero, suc, ◌+◌, ◌≤◌, ◌<◌, ◌≡◌, ◌≢◌, true, false, ◌↔◌, refl, sym, some, arith, ◌==◌, ap, ◌∙◌,
  Bool-cases, inl, inr,
}
use pentinum_os.Cstd.{Bytes, length_from, strlen, agree_from, strcmp}

length_from-ends :
    (n i fuel : ℕ) (m : Bytes) (a : ℕ)
    → ((j : ℕ) → j < n → m (a + (i + j)) ≢ 0)
    → m (a + (i + n)) ≡ 0
    → n < fuel
    → length_from fuel m a i ≡ some (i + n)
unfolding length_from
length_from-ends n i zero m a before at_end h = absurd (omega arith)
length_from-ends zero i (suc fuel) m a before at_end h =
    let z : m (a + i) ≡ 0 = ap (λ t. m (a + t)) (omega arith) ∙ at_end in
    let same : i ≡ i + 0 = omega arith in rw z (ap some same)
length_from-ends (suc n) i (suc fuel) m a before at_end h =
    let back : (j : ℕ) → m (a + (suc i + j)) ≡ m (a + (i + suc j)) =
      λ j. ap (λ t. m (a + t)) (omega arith) in
    let first : m (a + i) ≡ m (a + (i + 0)) = ap (λ t. m (a + t)) (omega arith) in
    let goes_on : (m (a + i) == 0) ≡ false = ground (arith, first, before 0 (omega arith)) in
    rw goes_on (
      length_from-ends n (suc i) fuel m a (λ j l z. before (suc j) (omega arith) (sym (back j) ∙ z))
        (back n ∙ at_end) (omega arith)
      ∙ ap some (omega arith))

-- If the first zero byte of a string is the one at index `n`, `strlen` ends in its round `n + 1`, and
-- returns `n`.
pub strlen-ends :
    (n fuel : ℕ) (m : Bytes) (a : ℕ)
    → ((j : ℕ) → j < n → m (a + j) ≢ 0)
    → m (a + n) ≡ 0
    → n < fuel
    → strlen fuel m a ≡ some n
unfolding strlen
strlen-ends n fuel m a before at_end h =
    let zero_plus : (j : ℕ) → m (a + (0 + j)) ≡ m (a + j) =
      λ j. ap (λ t. m (a + t)) (omega arith) in
    length_from-ends n 0 fuel m a (λ j l z. before j l (sym (zero_plus j) ∙ z))
      (zero_plus n ∙ at_end) h
    ∙ ap some (omega arith)

-- The bytes from index `i` on agree.
abbrev pub Agree : Bytes → ℕ → ℕ → ℕ → ℕ → Type 0
Agree m a b i n = (j : ℕ) → i ≤ j → j < i + n → m (a + j) ≡ m (b + j)

agree_from-agrees :
    (n i : ℕ) (m : Bytes) (a b : ℕ) → (agree_from m a b i n ≡ true) ↔ Agree m a b i n
unfolding agree_from
agree_from-agrees zero i m a b = (λ e j l k. absurd (omega arith), λ h. refl)
agree_from-agrees (suc n) i m a b =
    let (fwd, back) = agree_from-agrees n (suc i) m a b in
    elim (Bool-cases (m (a + i) == m (b + i))) [
      | inl same ↦ rw same (
        λ e j l k. elim (Bool-cases (j == i)) [
          | inl first ↦ let q : j ≡ i = ground arith in rw q (ground arith)
          | inr later ↦ fwd e j (ground arith) (omega arith)
        ],
        λ h. back (λ j l k. h j (omega arith) (omega arith)),
      )
      | inr other ↦
          rw other
            (λ e. ground arith, λ h. absurd (ground (arith, h i (omega arith) (omega arith))))
    ]

-- `strcmp` returns true exactly when the first `n` bytes of the two agree; it does not stop at a zero
-- byte.
pub strcmp-agrees :
    (m : Bytes) (a b n : ℕ) → (strcmp m a b n ≡ true) ↔ ((j : ℕ) → j < n → m (a + j) ≡ m (b + j))
unfolding strcmp
strcmp-agrees m a b n =
    let (fwd, back) = agree_from-agrees n 0 m a b in
    (λ e j l. fwd e j (omega arith) (omega arith), λ h. back (λ j l k. h j (omega arith)))

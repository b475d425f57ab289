-- ===== src/Fiber/Barrier/Family.antt =====
-- Families of values by thread: the change of one, and sums over the first `n`.
use libbaalue.Prelude.{
  ℕ, zero, suc, ◌+◌, ◌≤◌, ◌<◌, ◌≡◌, refl, inl, inr, Bool-cases, if◌then◌else◌, ◌==◌, arith,
}

abbrev pub update {ℓ} : {A : Type ℓ} → (ℕ → A) → ℕ → A → ℕ → A
update f i a j = if i == j then a else f j

module _ {ℓ} {A : Type ℓ} (w : A → ℕ) where
  -- The sum of the weights of the first `n`.
  pub weights : ℕ → (ℕ → A) → ℕ
  weights zero f = 0
  weights (suc n) f = weights n f + w (f n)

  untouched : (n : ℕ) (f : ℕ → A) (i : ℕ) (a : A) → n ≤ i → weights n (update f i a) ≡ weights n f
  unfolding weights
  untouched zero f i a h = refl
  untouched (suc n) f i a h = ground (arith, untouched n f i a)

  pub weights-update :
      (n : ℕ) (f : ℕ → A) (i : ℕ) (a : A)
      → i < n
      → weights n (update f i a) + w (f i) ≡ weights n f + w a
  unfolding weights
  weights-update zero f i a h = absurd (omega arith)
  weights-update (suc n) f i a h = elim (Bool-cases (i == n)) [
    | inl last ↦ ground (arith, untouched n f i a)
    | inr before ↦ ground (arith, weights-update n f i a)
  ]

-- ===== src/Benchmark/Sums.antt =====
-- The threads of vectorMultiply.c compute what `verify` computes.
use virtual_memory_simulatio.Base.{
  ℕ, zero, suc, ◌+◌, ◌*◌, ◌%◌, ◌<◌, ◌≤◌, ◌≡◌, refl, sym, ◌∙◌, ap, arith, ltb, if◌then◌else◌,
  Bool-cases, inl, inr,
}
use virtual_memory_simulatio.Benchmark.{int_range, add_terms, vector_multiply, verify, run_threads}

module _ (term : ℕ → ℕ) (size : ℕ) where
  -- The sum of the terms at `i`, `i + step` and so on below `size`, without a bound.
  abbrev pub terms : ℕ → ℕ → ℕ → ℕ
  terms zero step i = 0
  terms (suc fuel) step i = if ltb i size then term i + terms fuel step (i + step) else 0

  pub add_terms-terms :
      (fuel step i sum : ℕ)
      → sum < int_range
      → add_terms fuel term size step i sum ≡ (sum + terms fuel step i) % int_range
  unfolding add_terms
  add_terms-terms zero step i sum b = omega arith
  add_terms-terms (suc fuel) step i sum b =
      let ih = add_terms-terms fuel step (i + step) ((sum + term i) % int_range) (omega arith) in
      elim (Bool-cases (ltb i size)) [
        | inl inside ↦ rw inside (ih ∙ omega arith)
        | inr outside ↦ rw outside (omega arith)
      ]

  terms-end : (fuel step i : ℕ) → size ≤ i → terms fuel step i ≡ 0
  terms-end zero step i h = refl
  terms-end (suc fuel) step i h = ground arith

  terms-next :
      (fuel step i : ℕ) → i < size → terms (suc fuel) step i ≡ term i + terms fuel step (i + step)
  terms-next fuel step i h = ground arith

  -- More fuel than there are indexes changes nothing.
  terms-fuel :
      (fuel step i : ℕ) → 0 < step → size < i + fuel → terms (suc fuel) step i ≡ terms fuel step i
  terms-fuel zero step i p h = terms-end 1 step i (omega arith)
  terms-fuel (suc fuel) step i p h = elim (Bool-cases (ltb i size)) [
    | inl inside ↦
        rw inside (ap (λ n. term i + n) (terms-fuel fuel step (i + step) p (omega arith)))
    | inr outside ↦ rw outside refl
  ]

  -- The sums of `threads` threads from `n` on.
  abbrev pub all_terms : ℕ → ℕ → ℕ → ℕ → ℕ
  all_terms zero fuel step n = 0
  all_terms (suc threads) fuel step n = terms fuel step n + all_terms threads fuel step (n + 1)

  all_terms-snoc :
      (threads fuel step n : ℕ)
      → all_terms (suc threads) fuel step n
        ≡ all_terms threads fuel step n + terms fuel step (n + threads)
  all_terms-snoc zero fuel step n =
      let e : terms fuel step (n + 0) ≡ terms fuel step n =
        ap (λ i. terms fuel step i) (omega arith) in
      omega (arith, e)
  all_terms-snoc (suc threads) fuel step n =
      let e : terms fuel step (n + 1 + threads) ≡ terms fuel step (n + suc threads) =
        ap (λ i. terms fuel step i) (omega arith) in
      omega (arith, all_terms-snoc threads fuel step (n + 1), e)

  all_terms-end : (threads fuel step n : ℕ) → size ≤ n → all_terms threads fuel step n ≡ 0
  all_terms-end zero fuel step n h = refl
  all_terms-end (suc threads) fuel step n h =
      omega (arith, terms-end fuel step n h, all_terms-end threads fuel step (n + 1) (omega arith))

  all_terms-shift :
      (k fuel n : ℕ)
      → n < size
      → size < fuel
      → all_terms (suc k) fuel (suc k) n ≡ term n + all_terms (suc k) fuel (suc k) (n + 1)
  all_terms-shift k fuel n h f =
      let e : terms fuel (suc k) (n + 1 + k) ≡ terms fuel (suc k) (n + suc k) =
        ap (λ i. terms fuel (suc k) i) (omega arith) in
      omega (
        arith,
        terms-fuel fuel (suc k) n (omega arith) (omega arith),
        terms-next fuel (suc k) n h,
        all_terms-snoc k fuel (suc k) (n + 1),
        e,
      )

  -- The threads' sums together are the sum over all indexes.
  pub all_terms-terms :
      (k fuel rounds n : ℕ)
      → size < fuel
      → size < n + rounds
      → all_terms (suc k) fuel (suc k) n ≡ terms rounds 1 n
  all_terms-terms k fuel zero n f h = all_terms-end (suc k) fuel (suc k) n (omega arith)
  all_terms-terms k fuel (suc rounds) n f h = elim (Bool-cases (ltb n size)) [
    | inl inside ↦
        let less : n < size = ground arith in
        rw inside (
          all_terms-shift k fuel n less f
          ∙ ap (λ x. term n + x) (all_terms-terms k fuel rounds (n + 1) f (omega arith)))
    | inr outside ↦
        let over : size ≤ n = ground arith in rw outside (all_terms-end (suc k) fuel (suc k) n over)
  ]

module _ (fuel : ℕ) (r s : ℕ → ℕ) (vector_size : ℕ) where
  run_threads-terms :
      (threads thread_num n res : ℕ)
      → res < int_range
      → run_threads threads fuel r s vector_size thread_num n res
        ≡ (res + all_terms (λ i. r i * s i) vector_size threads fuel thread_num n) % int_range
  unfolding run_threads vector_multiply
  run_threads-terms zero thread_num n res b = omega arith
  run_threads-terms (suc threads) thread_num n res b =
      let step = add_terms-terms (λ i. r i * s i) vector_size fuel thread_num n res b in
      rw step (run_threads-terms threads thread_num (n + 1) _ (omega arith) ∙ omega arith)

-- The threads of vectorMultiply.c, whatever their number, leave in res what verify computes, also
-- where the int wraps around, if they run one after the other, there is at least one, and the fuel
-- exceeds the size of the vectors.
pub run_threads-verify :
    (fuel : ℕ) (r s : ℕ → ℕ) (vector_size thread_num : ℕ)
    → 0 < thread_num
    → vector_size < fuel
    → run_threads thread_num fuel r s vector_size thread_num 0 0 ≡ verify fuel r s vector_size
unfolding verify
run_threads-verify fuel r s vector_size zero p f = absurd (omega arith)
run_threads-verify fuel r s vector_size (suc k) p f =
    run_threads-terms fuel r s vector_size (suc k) (suc k) 0 0 (omega arith)
    ∙ ap (λ x. (0 + x) % int_range)
        (all_terms-terms (λ i. r i * s i) vector_size k fuel fuel 0 f (omega arith))
    ∙ sym (add_terms-terms (λ i. r i * s i) vector_size fuel 1 0 0 (omega arith))

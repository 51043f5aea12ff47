-- ===== src/Benchmark/Parallel/Rows.antt =====
-- The rows a thread of parallelCal.c writes, and the sum of all threads.
use virtual_memory_simulatio.Base.{
  ℕ, zero, suc, ◌+◌, true, ◌*◌, ◌%◌, ◌<◌, ◌≤◌, ◌≡◌, ◌≢◌, refl, sym, ◌∙◌, ap, arith, ltb,
  if◌then◌else◌, Bool-cases, inl, inr, ◌==◌, ==_refl, ==_ne, ltb→lt,
}
use virtual_memory_simulatio.Benchmark.{int_range, add_terms}
use virtual_memory_simulatio.Benchmark.Sums.{terms, all_terms, add_terms-terms, all_terms-terms}
use virtual_memory_simulatio.Benchmark.Parallel.{
  write, add_row, add_rows, run_parallel, verify_parallel,
}

-- Threads with different numbers have no row in common.
apart : (step n n' m m' : ℕ) → n < n' → n' < n + step → n' + m' * step ≢ n + m * step
apart step n n' zero m' l u e = omega (arith, l, u, e)
apart step n n' (suc m) zero l u e = omega (arith, l, u, e)
apart step n n' (suc m) (suc m') l u e = apart step n n' m m' l u (omega (arith, l, u, e))

write-at : (p : ℕ → ℕ) (j v k : ℕ) → k ≡ j → write p j v k ≡ v
write-at p j v k e = ap (λ b. if b then v else p k) (ap (λ x. k == x) (sym e) ∙ ==_refl k)

write-ne : (p : ℕ → ℕ) (j v k : ℕ) → k ≢ j → write p j v k ≡ p k
write-ne p j v k ne = ap (λ b. if b then v else p k) (==_ne k j ne)

lt→ltb : (i size : ℕ) → i < size → ltb i size ≡ true
lt→ltb i size h = ground (arith, h)

-- The sum of the terms reads nothing but the terms below the size.
terms-cong :
    (f g : ℕ → ℕ) (size fuel step i : ℕ)
    → ((m : ℕ) → i + m * step < size → f (i + m * step) ≡ g (i + m * step))
    → terms f size fuel step i ≡ terms g size fuel step i
terms-cong f g size zero step i same = refl
terms-cong f g size (suc fuel) step i same = elim (Bool-cases (ltb i size)) [
  | inl inside ↦
      let less : i < size = ltb→lt i size inside in
      let i0 : i ≡ i + 0 * step = omega arith in
      let h0 : i + 0 * step < size = omega arith in
      let first : f i ≡ g i = ap f i0 ∙ same 0 h0 ∙ ap g (sym i0) in
      let rest = terms-cong f g size fuel step (i + step) (λ m h.
        let e : i + step + m * step ≡ i + suc m * step = omega arith in
        ap f e ∙ same (suc m) (omega (arith, e, h)) ∙ ap g (sym e)) in
      rw inside (omega (arith, first, rest))
  | inr outside ↦ rw outside refl
]

module _ (a : ℕ → ℕ → ℕ) (c_size r_size : ℕ) where
  abbrev row : ℕ → ℕ
  row j = add_row a c_size r_size j 0

  -- Rows that are not visited keep their number.
  add_rows-elsewhere :
      (rounds step j : ℕ) (p : ℕ → ℕ) (k : ℕ)
      → ((m : ℕ) → k ≢ j + m * step)
      → add_rows a c_size r_size rounds step j p k ≡ p k
  unfolding add_rows
  add_rows-elsewhere zero step j p k ne = refl
  add_rows-elsewhere (suc rounds) step j p k ne = elim (Bool-cases (ltb j r_size)) [
    | inl inside ↦ rw inside (
        add_rows-elsewhere rounds step (j + step) _ k (λ m e. ne (suc m) (omega (arith, e)))
        ∙ write-ne p j _ k (λ e. ne 0 (omega (arith, e))))
    | inr outside ↦ rw outside refl
  ]

  -- A row that is visited, and held zero, holds its sum.
  add_rows-at :
      (rounds step j : ℕ) (p : ℕ → ℕ) (m k : ℕ)
      → 0 < step
      → r_size < j + rounds
      → k ≡ j + m * step
      → k < r_size
      → p k ≡ 0
      → add_rows a c_size r_size rounds step j p k ≡ row k
  unfolding add_rows
  add_rows-at zero step j p m k pos f e h z = absurd (omega (arith, f, h, e))
  add_rows-at (suc rounds) step j p zero k pos f e h z =
      let here : k ≡ j = omega (arith, e) in
      rw (lt→ltb j r_size (omega (arith, here, h))) (
        add_rows-elsewhere rounds step (j + step) _ k (λ m e'. omega (arith, e', here, pos))
        ∙ write-at p j _ k here
        ∙ ap (λ x. add_row a c_size r_size x (p x)) (sym here)
        ∙ ap (add_row a c_size r_size k) z)
  add_rows-at (suc rounds) step j p (suc m) k pos f e h z =
      rw (lt→ltb j r_size (omega (arith, e, h))) (
        add_rows-at rounds step (j + step) _ m k pos (omega (arith, f, pos)) (omega (arith, e)) h
          (write-ne p j _ k (λ e'. omega (arith, e, e', pos)) ∙ z))

  -- The sum of the rows of one thread.
  add_terms-rows :
      (step n sum : ℕ) (p : ℕ → ℕ)
      → 0 < step
      → sum < int_range
      → ((m : ℕ) → p (n + m * step) ≡ 0)
      → add_terms (r_size + 1) (add_rows a c_size r_size (r_size + 1) step n p) r_size step n sum
        ≡ (sum + terms row r_size (r_size + 1) step n) % int_range
  add_terms-rows step n sum p pos b z =
      add_terms-terms _ r_size (r_size + 1) step n sum b
      ∙ ap (λ x. (sum + x) % int_range)
          (terms-cong _ row r_size (r_size + 1) step n (λ m h.
            add_rows-at (r_size + 1) step n p m (n + m * step) pos (omega arith) refl h (z m)))

  run_parallel-terms :
      (thread_num threads n sum : ℕ) (p : ℕ → ℕ)
      → 0 < thread_num
      → n + threads ≤ thread_num
      → sum < int_range
      → ((n' m : ℕ) → n ≤ n' → n' < thread_num → p (n' + m * thread_num) ≡ 0)
      → (run_parallel a c_size r_size threads thread_num n p sum).1
        ≡ (sum + all_terms row r_size threads (r_size + 1) thread_num n) % int_range
  unfolding run_parallel
  run_parallel-terms thread_num zero n sum p pos u b z = omega (arith, b)
  run_parallel-terms thread_num (suc threads) n sum p pos u b z =
      let p' : ℕ → ℕ = add_rows a c_size r_size (r_size + 1) thread_num n p in
      let first =
        add_terms-rows thread_num n sum p pos b (λ m. z n m (omega arith) (omega (arith, u))) in
      let ih =
        run_parallel-terms thread_num threads (n + 1)
          (add_terms (r_size + 1) p' r_size thread_num n sum) p' pos (omega (arith, u))
          (omega (arith, first))
          (λ n' m l h.
            add_rows-elsewhere (r_size + 1) thread_num n p (n' + m * thread_num)
              (λ m'. apart thread_num n n' m' m (omega (arith, l)) (omega (arith, h)))
            ∙ z n' m (omega (arith, l)) h) in
      ih ∙ omega (arith, first)

-- The threads of parallelCal.c, whatever their number and whatever the matrix and its sizes, leave
-- in sum what verify computes from the same matrix, also where the int wraps around, if they run
-- one after the other and there is at least one.
pub run_parallel-verify :
    (a : ℕ → ℕ → ℕ) (c_size r_size thread_num : ℕ)
    → 0 < thread_num
    → (run_parallel a c_size r_size thread_num thread_num 0 (λ j. 0) 0).1
      ≡ verify_parallel a c_size r_size
unfolding verify_parallel
run_parallel-verify a c_size r_size zero pos = absurd (omega (arith, pos))
run_parallel-verify a c_size r_size (suc k) pos =
    let sums : ℕ → ℕ = row a c_size r_size in
    run_parallel-terms a c_size r_size (suc k) (suc k) 0 0 (λ j. 0) pos (omega arith) (omega arith)
      (λ n' m l h. refl)
    ∙ ap (λ x. (0 + x) % int_range)
        (all_terms-terms sums r_size k (r_size + 1) (r_size + 1) 0 (omega arith) (omega arith))
    ∙ sym (add_terms-rows a c_size r_size 1 0 0 (λ j. 0) (omega arith) (omega arith) (λ m. refl))

-- ===== src/Switch/Fair.antt =====
-- `my_pthread_yield_helper` as a whole, with its calls of itself: where it ends, and that every
-- thread that can run has its turn.
pub mod Tests
use virtual_memory_simulatio.Base.{
  ℕ, zero, suc, ◌+◌, ◌<◌, ◌≤◌, ◌≡◌, refl, sym, ◌∙◌, ap, subst, List, [], ◌∷◌, ◌++◌, Option, some,
  arith, true, false, Bool, Bool-cases, inl, inr, length, length-append,
}
use virtual_memory_simulatio.Threads.{
  Timeval, Tcb, Sched, Run, Cmd, ok, fault, out_of_fuel, pure, ◌>>=◌, running,
}
use virtual_memory_simulatio.Threads.Related.{
  Related, AllAt, AllAt-Related, Related-trans, AllAt-snoc,
}
use virtual_memory_simulatio.Switch.{is_terminated, my_pthread_yield_helper}
use virtual_memory_simulatio.Switch.Single.{IsPlain, Single, SameKind, SameKind-trans}
use virtual_memory_simulatio.Switch.Install.{Starts}
use virtual_memory_simulatio.Switch.Turns.{Current, head-Current, turn-Starts, Passes, turn-Passes}
use mathlib.Core.List.{append_assoc, append-nil}

abbrev pub IsEnded : Tcb → Type 0
IsEnded t = is_terminated t.state ≡ true

IsEnded-SameKind : (t u : Tcb) → SameKind t u → IsEnded t → IsEnded u
IsEnded-SameKind t u (same_level, same_yield, same_end) over = same_end ∙ over

-- my_pthread_yield_helper ends at the first thread behind the one at the head of the level that
-- has not ended: it passes over those that have, with one call of itself for each, makes that
-- thread the current one, marks it running, installs its context and leaves the level rotated to
-- it. Conditions: all threads stand in level 0 and none has yielded, the current thread has a
-- block of level 0, the threads passed over have ended and the one behind them has not, and the
-- fuel exceeds their number.
pub my_pthread_yield_helper-Starts :
    (s : Sched) (x y : ℕ) (xs zs ys : List ℕ) (fuel : ℕ) (now : Timeval) (t : Tcb)
    → Single s (x ∷ xs)
    → Current s
    → xs ++ x ∷ [] ≡ zs ++ y ∷ ys
    → AllAt s.tcbs IsEnded zs
    → s.tcbs y ≡ some t
    → is_terminated t.state ≡ false
    → length zs < fuel
    → Starts s y (y ∷ ys ++ zs) (my_pthread_yield_helper fuel now s)
my_pthread_yield_helper-Starts s x y xs zs ys zero now t g c turned over ey live few =
    absurd (omega (arith, few))
my_pthread_yield_helper-Starts s x y xs [] ys (suc fuel) now t g c turned over ey live few =
    subst (λ l. Starts s y (y ∷ l) (my_pthread_yield_helper (suc fuel) now s)) (sym (append-nil ys))
      (turn-Starts s x y xs ys fuel now t g c turned ey live)
my_pthread_yield_helper-Starts s x y xs (z ∷ zs) ys (suc fuel) now t g c turned over ey live few =
    let ((tz, ez, end), rest) = over in
    let a = turn-Passes s x z xs (zs ++ y ∷ ys) tz g c turned ez end in
    let (u, ey', (same_level, same_yield, same_end)) = a.kinds y t ey in
    let r =
      my_pthread_yield_helper-Starts a.final z y (zs ++ y ∷ ys) zs (ys ++ z ∷ []) fuel now u
        a.single a.current (append_assoc zs (y ∷ ys) (z ∷ []))
        (AllAt-Related SameKind IsEnded s.tcbs a.final.tcbs zs a.kinds IsEnded-SameKind rest) ey'
        (same_end ∙ live) (omega (arith, few)) in
    record {
      final = r.final;
      runs = a.runs fuel now ∙ r.runs;
      current = r.current;
      single = subst (λ l. Single r.final (y ∷ l)) (append_assoc ys (z ∷ []) zs) r.single;
      kinds =
          Related-trans SameKind SameKind SameKind s.tcbs a.final.tcbs r.final.tcbs SameKind-trans
            a.kinds r.kinds;
      marked = r.marked;
      cells = r.cells ∙ a.cells;
      few = (
        r.few.0,
        subst (λ l. r.final.has_run ≤ suc (length l)) (append_assoc ys (z ∷ []) zs) r.few.1,
      );
    }

-- When all threads have ended, my_pthread_yield_helper calls itself without end: no fuel is enough
-- for it. Conditions: all threads, at least one, stand in level 0, and the current thread has a
-- block of level 0.
pub my_pthread_yield_helper-all_ended :
    (fuel : ℕ) (now : Timeval) (s : Sched) (x : ℕ) (xs : List ℕ)
    → Single s (x ∷ xs)
    → Current s
    → AllAt s.tcbs IsEnded (x ∷ xs)
    → my_pthread_yield_helper fuel now s ≡ fault out_of_fuel
unfolding my_pthread_yield_helper
my_pthread_yield_helper-all_ended zero now s x xs g c over = refl
my_pthread_yield_helper-all_ended (suc fuel) now s x [] g c over =
    let ((t, e, end), rest) = over in
    let a = turn-Passes s x x [] [] t g c refl e end in
    a.runs fuel now
    ∙ my_pthread_yield_helper-all_ended fuel now a.final x [] a.single a.current
        (AllAt-Related SameKind IsEnded s.tcbs a.final.tcbs (x ∷ []) a.kinds IsEnded-SameKind over)
my_pthread_yield_helper-all_ended (suc fuel) now s x (y ∷ ys) g c over =
    let (first, ((t, e, end), rest)) = over in
    let a = turn-Passes s x y (y ∷ ys) (ys ++ x ∷ []) t g c refl e end in
    a.runs fuel now
    ∙ my_pthread_yield_helper-all_ended fuel now a.final y (ys ++ x ∷ []) a.single a.current (
        AllAt-Related SameKind IsEnded s.tcbs a.final.tcbs (y ∷ ys ++ x ∷ []) a.kinds
          IsEnded-SameKind (AllAt-snoc s.tcbs IsEnded x (y ∷ ys) over))

-- `k` calls of the helper, the first one at the time `clock i`.
abbrev pub yields : ℕ → (ℕ → Timeval) → ℕ → ℕ → Cmd (Unit {0})
yields fuel clock i zero = pure tt
yields fuel clock i (suc k) =
    my_pthread_yield_helper fuel (clock i) >>= λ _. yields fuel clock (suc i) k

-- At most `bound` calls, after a first one with the fuel `first`, make `y` the current thread.
pub record Reached (s : Sched) (first fuel : ℕ) (clock : ℕ → Timeval) (i y bound : ℕ) : Type 0 where
  pub more : ℕ
  pub few : more ≤ bound
  pub final : Sched
  pub runs :
      (my_pthread_yield_helper first (clock i) >>= λ _. yields fuel clock (suc i) more) s
      ≡ ok tt final
  pub current : final.current_tcb ≡ y
  pub marked : (v : Tcb) × (final.tcbs y ≡ some v) × (v.state ≡ running)

reach :
    (fuel : ℕ) (clock : ℕ → Timeval) (y : ℕ) (zs : List ℕ) (s : Sched) (x i first : ℕ)
    (xs ys : List ℕ) (t : Tcb)
    → Single s (x ∷ xs)
    → Current s
    → xs ++ x ∷ [] ≡ zs ++ y ∷ ys
    → s.tcbs y ≡ some t
    → is_terminated t.state ≡ false
    → length zs < first
    → length zs < fuel
    → Reached s first fuel clock i y (length zs)
reach fuel clock y zs s x i zero xs ys t g c turned ey live few enough = absurd (omega (arith, few))
reach fuel clock y [] s x i (suc first) xs ys t g c turned ey live few enough =
    let r = turn-Starts s x y xs ys first (clock i) t g c turned ey live in
    record {
      more = 0;
      few = omega arith;
      final = r.final;
      runs = rw r.runs refl;
      current = r.current;
      marked = r.marked;
    }
reach fuel clock y (z ∷ zs) s x i (suc first) xs ys t g c turned ey live few enough =
    let plain =
      subst (λ l. AllAt s.tcbs IsPlain l) turned (AllAt-snoc s.tcbs IsPlain x xs g.plain) in
    let (tz, ez, plain_z) = plain.0 in
    let next = append_assoc zs (y ∷ ys) (z ∷ []) in
    elim (Bool-cases (is_terminated tz.state)) [
      | inl over ↦
          let a = turn-Passes s x z xs (zs ++ y ∷ ys) tz g c turned ez over in
          let (u, ey', (same_level, same_yield, same_end)) = a.kinds y t ey in
          let r =
            reach fuel clock y zs a.final z i first (zs ++ y ∷ ys) (ys ++ z ∷ []) u a.single
              a.current next ey' (same_end ∙ live) (omega (arith, few)) (omega (arith, enough)) in
          record {
            more = r.more;
            few = omega (arith, r.few);
            final = r.final;
            runs = rw (a.runs first (clock i)) r.runs;
            current = r.current;
            marked = r.marked;
          }
      | inr going ↦
          let a = turn-Starts s x z xs (zs ++ y ∷ ys) first (clock i) tz g c turned ez going in
          let (u, ey', (same_level, same_yield, same_end)) = a.kinds y t ey in
          let r =
            reach fuel clock y zs a.final z (suc i) fuel (zs ++ y ∷ ys) (ys ++ z ∷ []) u a.single
              (head-Current a.final z (zs ++ y ∷ ys) a.single a.current) next ey' (same_end ∙ live)
              (omega (arith, enough)) (omega (arith, enough)) in
          record {
            more = suc r.more;
            few = omega (arith, r.few);
            final = r.final;
            runs = rw a.runs r.runs;
            current = r.current;
            marked = r.marked;
          }
    ]

-- Every thread that has not ended has its turn: a thread with as many others between it and the
-- head of the level becomes the current thread, and is marked running, after at most as many calls
-- of my_pthread_yield_helper and one more. Conditions: all threads stand in level 0 and none has
-- yielded, the current thread has a block of level 0, and the fuel exceeds the number of threads
-- before it.
pub my_pthread_yield_helper-Reached :
    (s : Sched) (x y : ℕ) (xs zs ys : List ℕ) (fuel : ℕ) (clock : ℕ → Timeval) (t : Tcb)
    → Single s (x ∷ xs)
    → Current s
    → xs ++ x ∷ [] ≡ zs ++ y ∷ ys
    → s.tcbs y ≡ some t
    → is_terminated t.state ≡ false
    → length zs < fuel
    → Reached s fuel fuel clock 0 y (length zs)
my_pthread_yield_helper-Reached s x y xs zs ys fuel clock t g c turned ey live enough =
    reach fuel clock y zs s x 0 fuel xs ys t g c turned ey live enough enough

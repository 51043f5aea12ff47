-- ===== src/Pthread/Join/Ended.antt =====
-- `my_pthread_join` of a thread that has ended, after the switch to another one.
use virtual_memory_simulatio.Base.{
  ℕ, ◌<◌, ◌≡◌, refl, ◌∙◌, ap, subst, All, List, [], ◌∷◌, ◌++◌, Option, some, arith, ==_ne, ◌==◌,
  inl, inr, Bool-cases, length, length-append, true, false,
}
use virtual_memory_simulatio.Threads.{Timeval, Tcb, Sched, ok, ◌>>=◌, number_levels, update}
use virtual_memory_simulatio.Threads.Access.{load_tcb-ok}
use virtual_memory_simulatio.Threads.Related.{Related, AllAt, AllAt-snoc}
use virtual_memory_simulatio.Levels.Holds.{update_elim}
use virtual_memory_simulatio.Levels.Lookup.{has_tid, first_with, get_tcb-first_with}
use virtual_memory_simulatio.Switch.{is_terminated, my_pthread_yield_helper}
use virtual_memory_simulatio.Switch.Single.{single, IsPlain, Single, SameKind}
use virtual_memory_simulatio.Switch.Turns.{head-Current}
use virtual_memory_simulatio.Switch.Fair.{IsEnded, my_pthread_yield_helper-Starts}
use virtual_memory_simulatio.Pthread.{my_pthread_join, value}
use mathlib.Core.List.{append-nil}

-- A change of a block but for its tid does not change what is found.
pub first_with-update :
    (m : ℕ → Option Tcb) (tid p : ℕ) (t u : Tcb) (xs : List ℕ)
    → m p ≡ some t
    → u.tid ≡ t.tid
    → first_with (update m p (some u)) tid xs ≡ first_with m tid xs
first_with-update m tid p t u [] e same = refl
first_with-update m tid p t u (x ∷ xs) e same =
    rw (first_with-update m tid p t u xs e same, here) refl
  where
    here : has_tid tid (update m p (some u) x) ≡ has_tid tid (m x)
    here = elim (Bool-cases (x == p)) [
      | inl hit ↦
          let at : x ≡ p = ground arith in
          let held : m x ≡ some t = ap m at ∙ e in rw (hit, held, same) refl
      | inr miss ↦ rw miss refl
    ]

-- Nor do changes of all blocks but for their tids.
first_with-Related :
    (R : Tcb → Tcb → Type 0) (P : Tcb → Type 0) (m m' : ℕ → Option Tcb) (tid : ℕ) (xs : List ℕ)
    → Related R m m'
    → ((t u : Tcb) → R t u → u.tid ≡ t.tid)
    → AllAt m P xs
    → first_with m' tid xs ≡ first_with m tid xs
first_with-Related R P m m' tid [] r same a = refl
first_with-Related R P m m' tid (x ∷ xs) r same ((t, e, p), a) =
    let (u, e', k) = r x t e in
    rw (first_with-Related R P m m' tid xs r same a, e, e', same t u k) refl

All-tail : (P : ℕ → Type 0) (xs ys : List ℕ) → All P (xs ++ ys) → All P xs × All P ys
All-tail P [] ys a = (tt, a)
All-tail P (x ∷ xs) ys (p, a) = let (b, c) = All-tail P xs ys a in ((p, b), c)

All-append : (P : ℕ → Type 0) (xs ys : List ℕ) → All P xs → All P ys → All P (xs ++ ys)
All-append P [] ys a b = b
All-append P (x ∷ xs) ys (p, a) b = (p, All-append P xs ys a b)

-- A thread's end and a switch, which passes over the threads of `zs` to `y`.
module _ (s : Sched) (x y : ℕ) (xs zs ys : List ℕ) (fuel joins : ℕ) (now : Timeval) (t ty : Tcb)
    (g : Single s (x ∷ xs)) (current : s.current_tcb ≡ x) (turned : xs ++ x ∷ [] ≡ zs ++ y ∷ ys)
    (passed : AllAt s.tcbs IsEnded zs) (ey : s.tcbs y ≡ some ty)
    (live : is_terminated ty.state ≡ false) (few : length zs < fuel)
    (enough : length (x ∷ xs) < joins) (ex : s.tcbs x ≡ some t) where
  -- When the current thread has ended, a join behind the switch finds what its return value is.
  pub my_pthread_join-ended :
      is_terminated t.state ≡ true
      → first_with s.tcbs t.tid (y ∷ ys ++ zs) ≡ x
      → (u : Sched) × ((my_pthread_yield_helper fuel now >>= λ _. my_pthread_join joins t.tid) s
          ≡ ok (value (s.cells t.return_value)) u)
        × (u.current_tcb ≡ y)
  unfolding my_pthread_join
  my_pthread_join-ended over first =
      let c = head-Current s x xs g current in
      let r =
        my_pthread_yield_helper-Starts s x y xs zs ys fuel now ty g c turned passed ey live few in
      let f = r.final in
      let there : AllAt s.tcbs IsPlain (zs ++ y ∷ ys) =
        subst (AllAt s.tcbs IsPlain) turned (AllAt-snoc s.tcbs IsPlain x xs g.plain) in
      let (front, back) = All-tail _ zs (y ∷ ys) there in
      let held = All-append _ (y ∷ ys) zs back front in
      let (u, eu, (own, _, same_end)) = r.kinds x t ex in
      let pos : 0 < x = (g.holds.queues 0 (omega arith)).chain.1 in
      let found : first_with f.tcbs t.tid ((y ∷ ys ++ zs) ++ []) ≡ x =
        ap (first_with f.tcbs t.tid) (append-nil (y ∷ ys ++ zs))
        ∙ first_with-Related SameKind IsPlain s.tcbs f.tcbs t.tid (y ∷ ys ++ zs) r.kinds
            (λ a b k. k.0.0) held
        ∙ first in
      let fits : length (y ∷ ys ++ zs) < joins = omega (
        arith,
        ap length turned,
        enough,
        length-append xs (x ∷ []),
        length-append zs (y ∷ ys),
        length-append ys zs,
      ) in
      let short : (i : ℕ) → i < number_levels → length (single (y ∷ ys ++ zs) i) < joins = λ i _.
        update_elim (λ l. length l < joins) (λ _. []) 0 (y ∷ ys ++ zs) i (λ _. fits)
          (λ _. omega (arith, fits)) in
      let kept : f.cells u.return_value ≡ s.cells t.return_value =
        ap f.cells own.1 ∙ ap (λ m. m t.return_value) r.cells in
      (
        f,
        simp (
          r.runs,
          get_tcb-first_with f (single (y ∷ ys ++ zs)) joins t.tid r.single.holds short,
          found,
          ==_ne x 0 (omega (arith, pos)),
          load_tcb-ok f x eu pos,
          same_end,
          over,
          kept,
        ),
        r.current,
      )

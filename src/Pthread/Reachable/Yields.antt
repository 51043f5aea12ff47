-- ===== src/Pthread/Reachable/Yields.antt =====
-- `my_pthread_yield_helper` in the states that a program reaches.
use virtual_memory_simulatio.Base.{
  ℕ, ◌≤◌, ◌≡◌, ◌≢◌, refl, ap, List, [], ◌∷◌, ◌++◌, Option, some, arith, false, Bool, ◌⊎◌, inl, inr,
  Bool-cases, length, length-append, ℤ,
}
use virtual_memory_simulatio.Threads.{Timeval, Tcb, Sched, ok, null}
use virtual_memory_simulatio.Threads.Related.{AllAt, AllAt-snoc}
use virtual_memory_simulatio.Levels.Holds.{SchedHolds}
use virtual_memory_simulatio.Switch.{is_terminated, my_pthread_yield_helper}
use virtual_memory_simulatio.Switch.Single.{single, IsPlain}
use virtual_memory_simulatio.Switch.Switched.{my_pthread_yield_helper-Switched}
use virtual_memory_simulatio.Switch.Fair.{IsEnded, my_pthread_yield_helper-Starts}
use virtual_memory_simulatio.Pthread.{NewThread, my_pthread_create}
use virtual_memory_simulatio.Pthread.Sound.{Sound, IsSound}
use virtual_memory_simulatio.Pthread.Sound.Switches.{Sound-Switched}
use virtual_memory_simulatio.Pthread.Sound.First.{Unused, FirstTwo}
use virtual_memory_simulatio.Pthread.Reachable.{Calls, program-IsSound}

-- The first thread of a list that has not ended.
record Live (m : ℕ → Option Tcb) (l : List ℕ) : Type 0 where
  pub before : List ℕ
  pub first : ℕ
  pub behind : List ℕ
  pub split : l ≡ before ++ first ∷ behind
  pub ended : AllAt m IsEnded before
  pub block : Tcb
  pub held : m first ≡ some block
  pub live : is_terminated block.state ≡ false

first-Live : (m : ℕ → Option Tcb) (l : List ℕ) → AllAt m IsPlain l → AllAt m IsEnded l ⊎ Live m l
first-Live m [] a = inl tt
first-Live m (x ∷ xs) ((t, held, plain), a) = elim (Bool-cases (is_terminated t.state)) [
  | inl over ↦ elim (first-Live m xs a) [
    | inl rest ↦ inl ((t, held, over), rest)
    | inr l ↦ inr (record {
      before = x ∷ l.before;
      first = l.first;
      behind = l.behind;
      split = ap (λ k. x ∷ k) l.split;
      ended = ((t, held, over), l.ended);
      block = l.block;
      held = l.held;
      live = l.live;
    })
  ]
  | inr going ↦ inr (record {
    before = [];
    first = x;
    behind = xs;
    split = refl;
    ended = tt;
    block = t;
    held = held;
    live = going;
  })
]

-- The run installs the context of some thread, and leaves a sound state.
pub record Yielded (s : Sched) (made : ℕ → Bool) (fuel : ℕ) (now : Timeval) : Type 0 where
  pub chosen : ℕ
  pub final : Sched
  pub runs : my_pthread_yield_helper fuel now s ≡ ok (some chosen) final
  pub current : final.current_tcb ≡ chosen
  pub sound : IsSound final made

Ended-back :
    (m : ℕ → Option Tcb) (x : ℕ) (xs : List ℕ)
    → AllAt m IsEnded (xs ++ x ∷ [])
    → AllAt m IsEnded (x ∷ xs)
Ended-back m x [] a = a
Ended-back m x (y ∷ ys) (here, a) = let (last, rest) = Ended-back m x ys a in (last, (here, rest))

Sound-Yielded :
    (s : Sched) (made : ℕ → Bool) (xs : List ℕ) (wait : ℕ → List ℕ)
    → Sound s made xs wait
    → s.current_tcb ≢ null
    → AllAt s.tcbs IsEnded xs
      ⊎ ((fuel : ℕ) (now : Timeval) → length xs ≤ fuel → Yielded s made fuel now)
Sound-Yielded s made [] wait g there = inl tt
Sound-Yielded s made (x ∷ xs) wait g there = elim g.current [
  | inl at ↦ absurd (there at)
  | inr c ↦
      elim (first-Live s.tcbs (xs ++ x ∷ []) (AllAt-snoc s.tcbs IsPlain x xs g.single.plain)) [
        | inl over ↦ inl (Ended-back s.tcbs x xs over)
        | inr l ↦ inr (λ fuel now enough.
            let same : length (xs ++ x ∷ []) ≡ length (l.before ++ l.first ∷ l.behind) =
              ap length l.split in
            let r =
              my_pthread_yield_helper-Starts s x l.first xs l.before l.behind fuel now l.block
                g.single c l.split l.ended l.held l.live
                (omega (
                  arith,
                  enough,
                  same,
                  length-append xs (x ∷ []),
                  length-append l.before (l.first ∷ l.behind),
                )) in
            record {
              chosen = l.first;
              final = r.final;
              runs = r.runs;
              current = r.current;
              sound = Sound-Switched s r.final made (x ∷ xs) wait g (
                  my_pthread_yield_helper-Switched fuel now s r.final (some l.first) (x ∷ xs)
                    g.single c r.runs);
            })
      ]
]

-- In every state that a program reaches, as in program-IsSound, in which there is a current
-- thread, either all threads of level 0 have ended, or my_pthread_yield_helper ends: it installs
-- the context of some thread, makes it the current one, and leaves the state as program-IsSound
-- says, with as much fuel as there are threads in level 0. Conditions: those of program-IsSound.
pub program-Yielded :
    (s t u : Sched) (main node : NewThread) (r : ℤ × ℕ) (made : ℕ → Bool)
    → Unused s
    → FirstTwo s main node
    → my_pthread_create main node s ≡ ok r t
    → Calls t (λ _. false) u made
    → u.current_tcb ≢ null
    → (xs : List ℕ) × SchedHolds u (single xs)
      × (AllAt u.tcbs IsEnded xs
          ⊎ ((fuel : ℕ) (now : Timeval) → length xs ≤ fuel → Yielded u made fuel now))
program-Yielded s t u main node r made z f e calls there =
    let g = program-IsSound s t u main node r made z f e calls in
    (g.level, g.sound.single.holds, Sound-Yielded u made g.level g.wait g.sound there)

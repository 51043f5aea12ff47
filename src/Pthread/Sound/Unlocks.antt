-- ===== src/Pthread/Sound/Unlocks.antt =====
-- `my_pthread_mutex_unlock` of a mutex that has been made.
use virtual_memory_simulatio.Base.{
  ℕ, ◌≡◌, ◌≢◌, refl, sym, ◌∙◌, ap, subst, List, [], ◌∷◌, ◌++◌, some, arith, true, Bool, inl, inr,
  Bool-cases, ◌==◌, ℤ, pos,
}
use virtual_memory_simulatio.Threads.{Mutex, Sched, ok, unlocked, update}
use virtual_memory_simulatio.Threads.Access.{load_tcb-found}
use virtual_memory_simulatio.Threads.Related.{Related, AllAt, AllAt-Related}
use virtual_memory_simulatio.Queue.Chain.{
  Distinct, IsQueue, NotIn, Apart, Apart-cons, Apart-tail, Apart-append, NotIn-of_Apart,
}
use virtual_memory_simulatio.Queue.Laws.{dequeue-nil}
use virtual_memory_simulatio.Switch.Single.{single, IsPlain}
use virtual_memory_simulatio.Pthread.{after_unlock, my_pthread_mutex_unlock}
use virtual_memory_simulatio.Pthread.Unlock.{Waits, my_pthread_mutex_unlock-Wakes}
use virtual_memory_simulatio.Pthread.Sound.{
  Sound, IsSound, Alike, IsPlain-Alike, Waiting-kept, Current-kept, Within-others, Holds-single,
  Related-links,
}
use virtual_memory_simulatio.Pthread.Sound.Creates.{AllAt-append}
use virtual_memory_simulatio.Pthread.Sound.Inits.{Sound-mutex}
use virtual_memory_simulatio.Pthread.Sound.Locks.{Sound-Waits}

-- The last assignment of the call.
after_unlock-Sound :
    (s t : Sched) (made : ℕ → Bool) (r : ℤ)
    → IsSound s made
    → after_unlock s ≡ ok r t
    → IsSound t made
after_unlock-Sound s t made r g e =
    let (v, held, at, run) = load_tcb-found s t s.current_tcb _ r e in
    let g1 = g.sound in
    elim g1.current [
      | inl is_null ↦ absurd (omega (arith, is_null, at))
      | inr c ↦
          let both : some v ≡ some c.block = sym held ∙ c.held in
          let eq : v ≡ c.block = cc both in
          let u : Sched = record s { after_unlock_priority = some v.priority } in
          let ends : ok (pos 0) u ≡ ok r t = run in
          let same : u ≡ t = cc ends in
          subst (λ w. IsSound w made) same
            (record {
              level = g.level;
              wait = g.wait;
              sound = record {
                single = record {
                  holds = record { queues = g1.single.holds.queues; apart = g1.single.holds.apart };
                  plain = g1.single.plain;
                };
                waiting = λ mu made_it.
                    let w = g1.waiting mu made_it in
                    record { queue = w.queue; plain = w.plain; off = w.off };
                apart = g1.apart;
                current =
                    inr (record { block = c.block; held = c.held; pos = c.pos; level = c.level });
                after = inr (ap (λ w. some w.priority) eq ∙ ap (λ p. some p) c.level);
                init = g1.init;
                later = g1.later;
              };
            })
    ]

-- The first waiting thread goes to the end of level 0.
woken-Sound :
    (s t : Sched) (made : ℕ → Bool) (x : ℕ) (xs ws : List ℕ) (wait : ℕ → List ℕ) (mu : ℕ) (r : ℤ)
    → Sound s made xs wait
    → made mu ≡ true
    → wait mu ≡ x ∷ ws
    → my_pthread_mutex_unlock mu s ≡ ok r t
    → IsSound t made
woken-Sound s t made x xs ws wait mu r g made_it front e =
    let q =
      my_pthread_mutex_unlock-Wakes s mu x ws (single xs) g.single.holds
        (subst (λ l. Waits s mu l (single xs)) front (Sound-Waits s made xs wait mu g made_it)) in
    let m : Mutex = record { lock_wait_queue = q.queue; state = unlocked } in
    let u : Sched = record s {
      tcbs = q.tcbs;
      multi_level_priority_queue = q.levels;
      mutexes = update s.mutexes mu m;
    } in
    let (t0, ex, plain_x) =
      (subst (λ l. AllAt s.tcbs IsPlain l) front (g.waiting mu made_it).plain).0 in
    let (n, placed) = q.placed t0 ex in
    let alike : Related Alike s.tcbs u.tcbs =
      Related-links s.tcbs u.tcbs x n (record t0 { priority = 0 })
        (λ v held.
          let same : some v ≡ some t0 = sym held ∙ ex in
          let eq : v ≡ t0 = cc same in rw eq (sym plain_x.0, λ p. p))
        q.links placed in
    let off : Apart (x ∷ ws) xs = subst (λ l. Apart l xs) front (g.waiting mu made_it).off in
    let away : (nu : ℕ) → nu ≢ mu → made nu ≡ true → Apart (wait nu) (x ∷ ws) =
      λ nu ne made_nu. subst (λ l. Apart (wait nu) l) front (g.apart nu mu ne made_nu made_it) in
    let back : (nu : ℕ) → mu ≢ nu → made nu ≡ true → Apart (x ∷ ws) (wait nu) =
      λ nu ne made_nu. subst (λ l. Apart l (wait nu)) front (g.apart mu nu ne made_it made_nu) in
    let fresh : NotIn x ws = (subst Distinct front (g.waiting mu made_it).queue.distinct).0 in
    let wait' = update wait mu ws in
    let rest = subst (λ l. AllAt s.tcbs IsPlain l) front (g.waiting mu made_it).plain in
    let sound : Sound u made (xs ++ x ∷ []) wait' = record {
      single = record {
        holds = Holds-single u xs (xs ++ x ∷ []) q.holds;
        plain =
            AllAt-append u.tcbs IsPlain x xs _
              (AllAt-Related Alike IsPlain s.tcbs u.tcbs xs alike IsPlain-Alike g.single.plain)
              placed (refl, plain_x.1);
      };
      waiting = λ nu made_nu. elim (Bool-cases (nu == mu)) [
        | inl hit ↦ rw hit (record {
          queue = q.waiting;
          plain = AllAt-Related Alike IsPlain s.tcbs u.tcbs ws alike IsPlain-Alike rest.1;
          off = Apart-append x xs ws off.1 fresh;
        })
        | inr miss ↦
            let ne : nu ≢ mu = ground arith in
            let w = g.waiting nu made_nu in
            let out = NotIn-of_Apart x ws (wait nu) (away nu ne made_nu) in
            rw miss (
              Waiting-kept s u (s.mutexes nu) (s.mutexes nu) (x ∷ xs) (wait nu) xs (xs ++ x ∷ []) w
                alike (Within-others s.tcbs u.tcbs (x ∷ xs) q.others)
                (Apart-cons x xs (wait nu) w.off out) refl (Apart-append x xs (wait nu) w.off out))
      ];
      apart = λ i j ne made_i made_j. elim (Bool-cases (i == mu)) [
        | inl hit ↦ elim (Bool-cases (j == mu)) [
          | inl at ↦ absurd (ne (ground arith))
          | inr miss ↦ let far : mu ≢ j = ground arith in rw (hit, miss) (back j far made_j).1
        ]
        | inr miss ↦ elim (Bool-cases (j == mu)) [
          | inl at ↦
              let far : i ≢ mu = ground arith in
              rw (miss, at) (Apart-tail x ws (wait i) (away i far made_i))
          | inr far ↦ rw (miss, far) (g.apart i j ne made_i made_j)
        ]
      ];
      current = Current-kept s u alike refl g.current;
      after = g.after;
      init = g.init;
      later = g.later;
    } in
    after_unlock-Sound u t made r (record { level = xs ++ x ∷ []; wait = wait'; sound = sound })
      (sym q.runs ∙ e)

-- Nobody waits.
lonely-Sound :
    (s t : Sched) (made : ℕ → Bool) (xs : List ℕ) (wait : ℕ → List ℕ) (mu : ℕ) (r : ℤ)
    → Sound s made xs wait
    → made mu ≡ true
    → wait mu ≡ []
    → my_pthread_mutex_unlock mu s ≡ ok r t
    → IsSound t made
unfolding my_pthread_mutex_unlock
lonely-Sound s t made xs wait mu r g made_it nobody e =
    let w = (s.mutexes mu).lock_wait_queue in
    let is = subst (λ l. IsQueue s.tcbs w l) nobody (g.waiting mu made_it).queue in
    let m : Mutex = record { lock_wait_queue = w; state = unlocked } in
    let u : Sched = record s { mutexes = update s.mutexes mu m } in
    let runs : my_pthread_mutex_unlock mu s ≡ after_unlock u = rw (dequeue-nil s w is) refl in
    after_unlock-Sound u t made r
      (record { level = xs; wait = wait; sound = Sound-mutex s made xs wait mu m g refl })
      (sym runs ∙ e)

pub my_pthread_mutex_unlock-Sound :
    (s t : Sched) (made : ℕ → Bool) (mu : ℕ) (r : ℤ)
    → IsSound s made
    → made mu ≡ true
    → my_pthread_mutex_unlock mu s ≡ ok r t
    → IsSound t made
my_pthread_mutex_unlock-Sound s t made mu r g made_it e = from (g.wait mu) refl
  where
    from : (ws : List ℕ) → g.wait mu ≡ ws → IsSound t made
    from [] nobody = lonely-Sound s t made g.level g.wait mu r g.sound made_it nobody e
    from (x ∷ ws) front = woken-Sound s t made x g.level ws g.wait mu r g.sound made_it front e

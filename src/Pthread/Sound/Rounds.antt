-- ===== src/Pthread/Sound/Rounds.antt =====
-- `lock_wait`, `lock_round` and `my_pthread_mutex_lock` in sound states.
use virtual_memory_simulatio.Base.{
  ℕ, ◌≡◌, ◌≢◌, refl, sym, ◌∙◌, ap, subst, List, [], ◌∷◌, some, arith, true, false, Bool, inl, inr,
  Bool-cases, ◌==◌, if◌then◌else◌,
}
use virtual_memory_simulatio.Threads.{
  Timeval, Mutex, Sched, Run, Cmd, ok, fault, pure, and_then, locked, unlocked, null, update, ◌>>◌,
  change_tcb,
}
use virtual_memory_simulatio.Threads.Access.{load_tcb-found, load_level-ok, store_level-ok}
use virtual_memory_simulatio.Queue.{enqueue}
use virtual_memory_simulatio.Queue.Laws.{dequeue-nil, enqueue-null}
use virtual_memory_simulatio.Switch.Single.{Single}
use virtual_memory_simulatio.Pthread.{lock_wait, lock_round, set_mutex, my_pthread_mutex_lock}
use virtual_memory_simulatio.Pthread.Sound.{Sound, IsSound}
use virtual_memory_simulatio.Pthread.Sound.Inits.{Sound-mutex}
use virtual_memory_simulatio.Pthread.Sound.Locks.{queued-Sound}

stuck :
    {A B : Type 0} (r : Run A) (k : A → Cmd B) (b : B) (t : Sched)
    → ((a : A) (u : Sched) → r ≢ ok a u)
    → and_then r k ≢ ok b t
stuck (ok a u) k b t h e = h a u refl
stuck (fault f) k b t h e = absurd (cc e)

-- On an empty level NULL would be enqueued.
lock_wait-empty :
    (s t : Sched) (mu : ℕ) (now : Timeval) → Single s [] → lock_wait mu 0 now s ≢ ok tt t
unfolding lock_wait
lock_wait-empty s t mu now g e =
    let q = s.multi_level_priority_queue 0 in
    let s2 : Sched = record s {
      multi_level_priority_queue = update s.multi_level_priority_queue 0 q;
    } in
    let w = (s.mutexes mu).lock_wait_queue in
    let reached : lock_wait mu 0 now s
        ≡ and_then (enqueue w null s2) (λ w' u.
          and_then
            (ok tt (record u {
              mutexes = update u.mutexes mu (record (u.mutexes mu) { lock_wait_queue = w' });
            }))
            (λ _. change_tcb null (λ t. record t { last_yield_time = now }))) =
      rw
        (
          load_level-ok s 0 (omega arith),
          dequeue-nil s q (g.holds.queues 0 (omega arith)),
          store_level-ok s 0 q (omega arith),
        )
        refl in
    stuck (enqueue w null s2) _ tt t (λ p u. enqueue-null s2 u w p) (sym reached ∙ e)

pub lock_wait-Sound :
    (s t : Sched) (made : ℕ → Bool) (mu : ℕ) (now : Timeval)
    → IsSound s made
    → made mu ≡ true
    → lock_wait mu 0 now s ≡ ok tt t
    → IsSound t made
lock_wait-Sound s t made mu now g made_it e = from g.level g.sound
  where
    from : (xs : List ℕ) → Sound s made xs g.wait → IsSound t made
    from [] v = absurd (lock_wait-empty s t mu now v.single e)
    from (x ∷ xs) v =
        let (u, runs, sound) = queued-Sound s made x xs g.wait mu now v made_it in
        let both : ok tt u ≡ ok tt t = sym runs ∙ e in
        let same : u ≡ t = cc both in subst (λ w. IsSound w made) same sound

pub lock_round-Sound :
    (s t : Sched) (made : ℕ → Bool) (mu : ℕ) (now : Timeval) (taken : Bool)
    → IsSound s made
    → made mu ≡ true
    → lock_round mu 0 now s ≡ ok taken t
    → IsSound t made
unfolding lock_round
lock_round-Sound s t made mu now taken g made_it e =
    let m : Mutex = record (s.mutexes mu) { state = locked } in
    let u : Sched = record s { mutexes = update s.mutexes mu m } in
    let g1 : IsSound u made = record {
      level = g.level;
      wait = g.wait;
      sound = Sound-mutex s made g.level g.wait mu m g.sound refl;
    } in
    let pick = λ (b : Bool).
      (if b then ok true u else (set_mutex mu m >> (lock_wait mu 0 now >> pure false)) s)
      ≡ ok taken t in
    elim (Bool-cases ((s.mutexes mu).state == unlocked)) [
      | inl free ↦
          let both : ok true u ≡ ok taken t = subst pick free e in
          let same : u ≡ t = cc both in subst (λ w. IsSound w made) same g1
      | inr held ↦
          waited (lock_wait mu 0 now u) (lock_wait-Sound u t made mu now g1 made_it)
            (subst pick held e)
    ]
  where
    waited :
        (r : Run (Unit {0}))
        → (r ≡ ok tt t → IsSound t made)
        → and_then r (λ _. pure false) ≡ ok taken t
        → IsSound t made
    waited (ok a w) h run = let same : w ≡ t = cc run in h (ap (λ v. ok tt v) same)
    waited (fault f) h run = absurd (cc run)

pub my_pthread_mutex_lock-Sound :
    (s t : Sched) (made : ℕ → Bool) (mu : ℕ) (now : Timeval) (taken : Bool)
    → IsSound s made
    → made mu ≡ true
    → my_pthread_mutex_lock mu now s ≡ ok taken t
    → IsSound t made
unfolding my_pthread_mutex_lock
my_pthread_mutex_lock-Sound s t made mu now taken g made_it e =
    let (v, held, pos, run) = load_tcb-found s t s.current_tcb _ taken e in
    elim g.sound.current [
      | inl at ↦ absurd (omega (arith, at, pos))
      | inr c ↦
          let both : some v ≡ some c.block = sym held ∙ c.held in
          let same : v ≡ c.block = cc both in
          let level : v.priority ≡ 0 = ap (λ w. w.priority) same ∙ c.level in
          lock_round-Sound s t made mu now taken g made_it
            (subst (λ p. lock_round mu p now s ≡ ok taken t) level run)
    ]

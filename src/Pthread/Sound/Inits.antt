-- ===== src/Pthread/Sound/Inits.antt =====
-- `my_pthread_mutex_init`, and changes of a mutex but for its wait queue.
use virtual_memory_simulatio.Base.{
  ℕ, ◌≡◌, refl, sym, ◌∙◌, ap, subst, List, [], true, Bool, inl, inr, ℤ, pos, Bool-cases, ◌==◌,
  if◌then◌else◌, ◌+◌,
}
use virtual_memory_simulatio.Threads.{Mutex, Sched, ok, unlocked, update}
use virtual_memory_simulatio.Queue.{queue_init}
use virtual_memory_simulatio.Queue.Chain.{Apart-nil}
use virtual_memory_simulatio.Levels.Holds.{update_elim}
use virtual_memory_simulatio.Pthread.{my_pthread_mutex_init}
use virtual_memory_simulatio.Pthread.Sound.{Sound, IsSound}

-- Only the mutexes change, and those of another address do not.
pub Sound-mutex :
    (s : Sched) (made : ℕ → Bool) (xs : List ℕ) (wait : ℕ → List ℕ) (mu : ℕ) (m : Mutex)
    → Sound s made xs wait
    → m.lock_wait_queue ≡ (s.mutexes mu).lock_wait_queue
    → Sound (record s { mutexes = update s.mutexes mu m }) made xs wait
Sound-mutex s made xs wait mu m g e =
    let u : Sched = record s { mutexes = update s.mutexes mu m } in
    record {
      single = record {
        holds = record { queues = g.single.holds.queues; apart = g.single.holds.apart };
        plain = g.single.plain;
      };
      waiting = λ nu made_it.
          let w = g.waiting nu made_it in
          let same : (update s.mutexes mu m nu).lock_wait_queue ≡ (s.mutexes nu).lock_wait_queue =
            update_elim (λ k. k.lock_wait_queue ≡ (s.mutexes nu).lock_wait_queue) s.mutexes mu m nu
              (λ at. e ∙ ap (λ k. (s.mutexes k).lock_wait_queue) (sym at)) (λ _. refl) in
          record { queue = rw same w.queue; plain = w.plain; off = w.off };
      apart = g.apart;
      current = elim g.current [
        | inl at ↦ inl at
        | inr c ↦ inr (record { block = c.block; held = c.held; pos = c.pos; level = c.level })
      ];
      after = g.after;
      init = g.init;
      later = g.later;
    }

-- The state after the mutex at `mu` has been made.
abbrev pub made_mutex : ℕ → Sched → Sched
made_mutex mu s = record s {
  number_locks = s.number_locks + 1;
  mutexes = update s.mutexes mu (record { lock_wait_queue = queue_init; state = unlocked });
}

pub my_pthread_mutex_init-runs :
    (s : Sched) (mu : ℕ)
    → s.scheduler_init ≡ true
    → my_pthread_mutex_init mu s ≡ ok (pos 0) (made_mutex mu s)
unfolding my_pthread_mutex_init
my_pthread_mutex_init-runs s mu init = rw init refl

-- A mutex that is made has an empty wait queue.
pub my_pthread_mutex_init-Sound :
    (s t : Sched) (made : ℕ → Bool) (mu : ℕ) (r : ℤ)
    → IsSound s made
    → my_pthread_mutex_init mu s ≡ ok r t
    → IsSound t (update made mu true)
unfolding queue_init
my_pthread_mutex_init-Sound s t made mu r g e =
    let v = g.sound in
    let u = made_mutex mu s in
    let wait = update g.wait mu [] in
    let runs = my_pthread_mutex_init-runs s mu v.init in
    let sound : Sound u (update made mu true) g.level wait = record {
      single = record {
        holds = record { queues = v.single.holds.queues; apart = v.single.holds.apart };
        plain = v.single.plain;
      };
      waiting = λ nu made_it. elim (Bool-cases (nu == mu)) [
        | inl hit ↦ rw hit (record {
          queue = record { chain = refl; distinct = tt; size = refl; tail = refl };
          plain = tt;
          off = tt;
        })
        | inr miss ↦
            let w = v.waiting nu (subst (λ b. (if b then true else made nu) ≡ true) miss made_it) in
            rw miss (record { queue = w.queue; plain = w.plain; off = w.off })
      ];
      apart = λ i j ne made_i made_j. elim (Bool-cases (i == mu)) [
        | inl hit ↦ rw hit tt
        | inr miss ↦ elim (Bool-cases (j == mu)) [
          | inl at ↦ rw (miss, at) (Apart-nil (g.wait i))
          | inr off ↦
              rw (miss, off)
                (v.apart i j ne (subst (λ b. (if b then true else made i) ≡ true) miss made_i)
                  (subst (λ b. (if b then true else made j) ≡ true) off made_j))
        ]
      ];
      current = elim v.current [
        | inl at ↦ inl at
        | inr c ↦ inr (record { block = c.block; held = c.held; pos = c.pos; level = c.level })
      ];
      after = v.after;
      init = v.init;
      later = v.later;
    } in
    let both : ok (pos 0) u ≡ ok r t = sym runs ∙ e in
    let same : u ≡ t = cc both in
    subst (λ w. IsSound w (update made mu true)) same
      (record { level = g.level; wait = wait; sound = sound })

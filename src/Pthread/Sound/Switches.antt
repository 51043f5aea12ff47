-- ===== src/Pthread/Sound/Switches.antt =====
-- A signal between two calls.
use virtual_memory_simulatio.Base.{
  ℕ, ◌≡◌, refl, sym, ◌∙◌, ap, subst, List, ◌∷◌, [], Option, none, some, arith, Bool, inl, inr,
  Bool-cases, if◌then◌else◌, ◌⊎◌,
}
use virtual_memory_simulatio.Threads.{Timeval, Tcb, Sched, ok, update, change_tcb, and_then, ◌>>◌}
use virtual_memory_simulatio.Threads.Access.{load_tcb-found, change_tcb-ok}
use virtual_memory_simulatio.Switch.{
  is_less, tick, after_unlock_or, my_pthread_yield_helper, my_pthread_yield_after_unlock_helper,
  signal_handler,
}
use virtual_memory_simulatio.Switch.Turns.{Current}
use virtual_memory_simulatio.Switch.Switched.{Switched, my_pthread_yield_helper-Switched}
use virtual_memory_simulatio.Switch.AfterUnlock.{my_pthread_yield_after_unlock_helper-Switched}
use virtual_memory_simulatio.Timing.{time_compare}
use virtual_memory_simulatio.Queue.Chain.{NotIn, Apart}
use virtual_memory_simulatio.Pthread.Sound.{
  Sound, IsSound, Sound-Fields, Waiting-kept, Related-Alike,
}
use virtual_memory_simulatio.Pthread.Sound.Fields.{change_tcb-Sound}

Apart-members :
    (ws xs ys : List ℕ) → ((z : ℕ) → NotIn z xs → NotIn z ys) → Apart ws xs → Apart ws ys
Apart-members [] xs ys h d = tt
Apart-members (w ∷ ws) xs ys h (out, d) = (h w out, Apart-members ws xs ys h d)

pub Sound-Switched :
    (s t : Sched) (made : ℕ → Bool) (xs : List ℕ) (wait : ℕ → List ℕ)
    → Sound s made xs wait
    → Switched s t xs
    → IsSound t made
Sound-Switched s t made xs wait g w =
    let (mutexes, after, init, last) = w.beside in
    record {
      level = w.level;
      wait = wait;
      sound = record {
        single = w.single;
        waiting = λ mu made_it.
            let v = g.waiting mu made_it in
            Waiting-kept s t (s.mutexes mu) (t.mutexes mu) xs (wait mu) xs w.level v
              (Related-Alike s.tcbs t.tcbs w.kinds) w.within v.off
              (ap (λ ms. (ms mu).lock_wait_queue) mutexes)
              (Apart-members (wait mu) xs w.level w.members v.off);
        apart = g.apart;
        current = w.current;
        after = subst (λ o. (o ≡ none) ⊎ (o ≡ some 0)) (sym after) g.after;
        init = init ∙ g.init;
        later = omega (arith, last, g.later);
      };
    }

helper-Sound :
    (s t : Sched) (made : ℕ → Bool) (fuel : ℕ) (now : Timeval) (r : Option ℕ)
    → IsSound s made
    → Current s
    → after_unlock_or s.after_unlock_priority
        (my_pthread_yield_after_unlock_helper fuel now)
        (my_pthread_yield_helper fuel now)
        s
      ≡ ok r t
    → IsSound t made
helper-Sound s t made fuel now r g c e =
    let pick = λ (o : Option ℕ).
      after_unlock_or o (my_pthread_yield_after_unlock_helper fuel now)
        (my_pthread_yield_helper fuel now) s
      ≡ ok r t in
    elim g.sound.after [
      | inl nothing ↦ Sound-Switched s t made g.level g.wait g.sound (
          my_pthread_yield_helper-Switched fuel now s t r g.level g.sound.single c
            (subst pick nothing e))
      | inr unlock ↦
          let s0 : Sched = record s { after_unlock_priority = none } in
          let g0 : Sound s0 made g.level g.wait = record {
            single = record {
              holds = record {
                queues = g.sound.single.holds.queues;
                apart = g.sound.single.holds.apart;
              };
              plain = g.sound.single.plain;
            };
            waiting = λ mu made_it.
                let v = g.sound.waiting mu made_it in
                record { queue = v.queue; plain = v.plain; off = v.off };
            apart = g.sound.apart;
            current = inr (record { block = c.block; held = c.held; pos = c.pos; level = c.level });
            after = inl refl;
            init = g.sound.init;
            later = g.sound.later;
          } in
          Sound-Switched s0 t made g.level g.wait g0 (
            my_pthread_yield_after_unlock_helper-Switched fuel now s t r g.level g.sound.single
              unlock (subst pick unlock e))
    ]

ticked-Sound :
    (s : Sched) (made : ℕ → Bool)
    → IsSound s made
    → IsSound (record s { cycle = tick s.cycle }) made
ticked-Sound s made g = record {
  level = g.level;
  wait = g.wait;
  sound =
      Sound-Fields s (record s { cycle = tick s.cycle }) made g.level g.wait g.sound
        (λ z v e. (v, e, (refl, (refl, λ q. q))))
        (record {
          levels = refl;
          mutexes = refl;
          current = refl;
          after = refl;
          init = refl;
          last = refl;
        });
}

pub signal_handler-Sound :
    (s t : Sched) (made : ℕ → Bool) (fuel context : ℕ) (now : Timeval) (r : Option ℕ)
    → IsSound s made
    → signal_handler fuel context now s ≡ ok r t
    → IsSound t made
unfolding signal_handler
signal_handler-Sound s t made fuel context now r g e =
    let s1 : Sched = record s { cycle = tick s.cycle } in
    let g1 = ticked-Sound s made g in
    let save = λ (b : Tcb). record b { context = context } in
    let (v, held, pos, run) = load_tcb-found s1 t s1.current_tcb _ r e in
    let early =
      is_less (time_compare v.recent_start_time now (s1.priority_time_slices v.priority)) in
    let go =
      change_tcb s1.current_tcb save
      >> after_unlock_or s1.after_unlock_priority (my_pthread_yield_after_unlock_helper fuel now)
          (my_pthread_yield_helper fuel now) in
    elim (Bool-cases early) [
      | inl over ↦
          let both : ok none s1 ≡ ok r t =
            subst (λ b. (if b then ok none s1 else go s1) ≡ ok r t) over run in
          let same : s1 ≡ t = cc both in subst (λ w. IsSound w made) same g1
      | inr going ↦
          let s2 : Sched = record s1 { tcbs = update s1.tcbs s1.current_tcb (some (save v)) } in
          let saved = change_tcb-ok s1 s1.current_tcb save held pos in
          let g2 =
            change_tcb-Sound s1 s2 made s1.current_tcb save g1 (λ w. (refl, (refl, λ q. q)))
              saved in
          let ran = subst (λ b. (if b then ok none s1 else go s1) ≡ ok r t) going run in
          let switching =
            subst
              (λ o.
                and_then o (λ _.
                  after_unlock_or s1.after_unlock_priority
                    (my_pthread_yield_after_unlock_helper fuel now)
                    (my_pthread_yield_helper fuel now))
                ≡ ok r t)
              saved ran in
          elim g2.sound.current [
            | inl at ↦ absurd (omega (arith, at, pos))
            | inr c ↦ helper-Sound s2 t made fuel now r g2 c switching
          ]
    ]

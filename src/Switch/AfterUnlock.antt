-- ===== src/Switch/AfterUnlock.antt =====
-- `my_pthread_yield_after_unlock_helper`, when all threads stand in level 0.
use virtual_memory_simulatio.Base.{
  ℕ, ◌≡◌, refl, sym, ◌∙◌, subst, List, [], ◌∷◌, Option, none, some, arith, true, false, leb, le→leb,
  Bool-cases, inl, inr, length,
}
use virtual_memory_simulatio.Threads.{Timeval, Sched, ok, null, pure}
use virtual_memory_simulatio.Threads.Access.{load_level-ok}
use virtual_memory_simulatio.Queue.{peek}
use virtual_memory_simulatio.Levels.Holds.{SchedHolds}
use virtual_memory_simulatio.Switch.{
  is_terminated, any_head, next_head, choose_current, install, my_pthread_yield_helper,
  my_pthread_yield_after_unlock_helper,
}
use virtual_memory_simulatio.Switch.Single.{
  single, Single, choose_current-single, rounds_left-few, rounds_left,
}
use virtual_memory_simulatio.Switch.Install.{install-Installs-pure}
use virtual_memory_simulatio.Switch.Turns.{head-Current, install-skips}
use virtual_memory_simulatio.Switch.Switched.{
  Switched, Switched-trans, Installs-Switched, my_pthread_yield_helper-Switched,
}

-- With no thread in the levels, none is found.
choose_current-none :
    (s : Sched)
    → SchedHolds s (single [])
    → choose_current 0 s ≡ ok false (record s { current_tcb = null; has_run = 0 })
unfolding choose_current next_head any_head peek
choose_current-none s h =
    let q0 = h.queues 0 (omega arith) in
    let q1 = h.queues 1 (omega arith) in
    let q2 = h.queues 2 (omega arith) in
    let s0 : Sched = record s { has_run = 0 } in
    let s1 : Sched = record s0 { current_tcb = null } in
    let over : leb 0 s.has_run ≡ true = le→leb 0 s.has_run (omega arith) in
    simp (
      load_level-ok s 0 (omega arith),
      q0.size,
      over,
      load_level-ok s0 1 (omega arith),
      q1.chain,
      load_level-ok s1 2 (omega arith),
      q2.chain,
      load_level-ok s1 0 (omega arith),
      load_level-ok s1 1 (omega arith),
      q1.size,
      q2.size,
    )

-- After an unlock the thread at the head of level 0 runs; when there is none, the helper returns.
pub my_pthread_yield_after_unlock_helper-Switched :
    (fuel : ℕ) (now : Timeval) (s t : Sched) (r : Option ℕ) (xs : List ℕ)
    → Single s xs
    → s.after_unlock_priority ≡ some 0
    → my_pthread_yield_after_unlock_helper fuel now s ≡ ok r t
    → Switched (record s { after_unlock_priority = none }) t xs
unfolding my_pthread_yield_after_unlock_helper
my_pthread_yield_after_unlock_helper-Switched fuel now s t r [] g unlock e =
    let s0 : Sched = record s { after_unlock_priority = none } in
    let s1 : Sched = record s0 { current_tcb = null; has_run = 0 } in
    let h0 : SchedHolds s0 (single []) = record {
      queues = g.holds.queues;
      apart = g.holds.apart;
    } in
    let returns : my_pthread_yield_after_unlock_helper fuel now s ≡ ok none s1 =
      rw (unlock, choose_current-none s0 h0) refl in
    let both : ok none s1 ≡ ok r t = sym returns ∙ e in
    let same : s1 ≡ t = cc both in
    subst (λ u. Switched s0 u []) same
      (record {
        level = [];
        single = record {
          holds = record { queues = g.holds.queues; apart = g.holds.apart };
          plain = tt;
        };
        members = λ z o. o;
        kinds = λ z w held. (w, held, ((refl, refl, refl), refl, refl));
        within = λ z o w held. (w, held, refl);
        beside = (refl, refl, refl, refl);
        current = inl refl;
      })
my_pthread_yield_after_unlock_helper-Switched fuel now s t r (y ∷ ys) g unlock e =
    let s0 : Sched = record s { after_unlock_priority = none } in
    let h0 : SchedHolds s0 (single (y ∷ ys)) = record {
      queues = g.holds.queues;
      apart = g.holds.apart;
    } in
    let k = rounds_left (s.multi_level_priority_queue 0).size s.has_run in
    let s1 : Sched = record s0 { current_tcb = y; has_run = k } in
    let g1 : Single s1 (y ∷ ys) = record { holds = h0; plain = g.plain } in
    let (v, ev, plain) = g.plain.0 in
    let again = my_pthread_yield_helper fuel now in
    let run : install again (pure tt) now s1 ≡ ok r t =
      let starts : my_pthread_yield_after_unlock_helper fuel now s
          ≡ install again (pure tt) now s1 =
        rw (unlock, choose_current-single s0 y ys h0) refl in
      sym starts ∙ e in
    let pos = (g.holds.queues 0 (omega arith)).chain.1 in
    Switched-trans s0 s1 t (y ∷ ys) (y ∷ ys) (λ z o. o)
      (λ z w held. (w, held, ((refl, refl, refl), refl, refl))) (λ z o w held. (w, held, refl))
      (refl, refl, refl, refl)
      (elim (Bool-cases (is_terminated v.state)) [
        | inl over ↦
            my_pthread_yield_helper-Switched fuel now s1 t r (y ∷ ys) g1
              (head-Current s1 y ys g1 refl)
              (sym (install-skips s1 again (pure tt) now v ev pos plain over) ∙ run)
        | inr live ↦
            Installs-Switched s1 t y ys (install again (pure tt) now) r
              (install-Installs-pure s1 again now y (y ∷ ys) v g1 refl pos ev plain live (
                rounds_left-few (s.multi_level_priority_queue 0).size s.has_run (length ys)
                  (g.holds.queues 0 (omega arith)).size))
              run
      ])

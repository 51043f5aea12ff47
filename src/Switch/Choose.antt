-- ===== src/Switch/Choose.antt =====
-- `my_pthread_yield_helper` as long as the level has rounds left.
use virtual_memory_simulatio.Base.{
  ℕ, suc, ◌+◌, ◌<◌, ◌≡◌, ◌≢◌, refl, sym, ◌∙◌, ap, subst, List, [], ◌∷◌, ◌++◌, Option, some, arith,
  true, false, leb, lt→leb, length, length-append,
}
use virtual_memory_simulatio.Threads.{
  Timeval, Tcb, Sched, Run, ok, number_levels, running, change_tcb, update, with_next, with_state,
}
use virtual_memory_simulatio.Threads.Access.{
  update_self, update_ne, load_tcb-ok, change_tcb-ok, load_level-ok,
}
use virtual_memory_simulatio.Queue.{peek}
use virtual_memory_simulatio.Queue.Chain.{Distinct, IsQueue, Chain-last, last_of, last_of-snoc}
use virtual_memory_simulatio.Levels.Holds.{Lists, SchedHolds}
use virtual_memory_simulatio.Switch.{
  is_terminated, is_yield, choose_current, install, my_pthread_yield_helper,
}
use virtual_memory_simulatio.Switch.Rotate.{requeue-Holds}

choose_current-head :
    (s : Sched) (c y : ℕ) (ys : List ℕ)
    → IsQueue s.tcbs (s.multi_level_priority_queue c) (y ∷ ys)
    → c < number_levels
    → s.has_run < length (y ∷ ys)
    → choose_current c s ≡ ok true (record s { current_tcb = y })
unfolding choose_current peek
choose_current-head s c y ys is lt more =
    let few : leb (s.multi_level_priority_queue c).size s.has_run ≡ false =
      lt→leb _ _ (omega (arith, is.size)) in
    rw (load_level-ok s c lt, few, is.chain.0) refl

install-runs :
    (s : Sched) (again : Sched → Run (Option ℕ)) (now : Timeval) (x y : ℕ) (t u : Tcb)
    → 0 < y
    → 0 < x
    → x ≢ y
    → s.tcbs y ≡ some t
    → s.tcbs x ≡ some u
    → is_yield t.state ≡ false
    → is_terminated t.state ≡ false
    → (m : ℕ → Option Tcb) × (install again
          (change_tcb x (λ v. record v { last_yield_time = now }))
          now
          (record s { current_tcb = y })
        ≡ ok (some y) (record s { current_tcb = y; tcbs = m; has_run = s.has_run + 1 }))
      × (m y ≡ some (record t { state = running; recent_start_time = now }))
unfolding install
install-runs s again now x y t u py px ne ey ex ny nt =
    let t1 : Tcb = with_state running t in
    let t2 : Tcb = record t1 { recent_start_time = now } in
    let u1 : Tcb = record u { last_yield_time = now } in
    let m1 = update s.tcbs y (some t1) in
    let m2 = update m1 x (some u1) in
    let s0 : Sched = record s { current_tcb = y } in
    let s1 : Sched = record s0 { tcbs = m1 } in
    let s2 : Sched = record s0 { tcbs = m2 } in
    (
      update m2 y (some t2),
      simp (
        load_tcb-ok s0 y ey py,
        ny,
        nt,
        change_tcb-ok s0 y (with_state running) ey py,
        change_tcb-ok s1 x (λ v. record v { last_yield_time = now })
            (update_ne s.tcbs y (some t1) x ne ∙ ex) px,
        change_tcb-ok s2 y (λ v. record v { recent_start_time = now })
            (update_ne m1 x (some u1) y (λ q. ne (sym q)) ∙ update_self s.tcbs y (some t1)) py,
      ),
      update_self m2 y (some t2),
    )

-- my_pthread_yield_helper, as long as fewer threads have run since the last change of level than
-- stand in the level of the current thread, makes the second thread of that level the current one,
-- marks it running, counts it in HAS_RUN and installs its context. Conditions: the levels stand
-- for lists no two of which share a block, the current thread has a block, the first thread of the
-- level has the priority of the level, and the second one has neither yielded nor terminated.
pub my_pthread_yield_helper_rotates :
    (s : Sched) (ls : Lists) (fuel : ℕ) (now : Timeval) (c x y : ℕ) (ys : List ℕ) (cur t ty : Tcb)
    → SchedHolds s ls
    → c < number_levels
    → ls c ≡ x ∷ y ∷ ys
    → s.tcbs s.current_tcb ≡ some cur
    → 0 < s.current_tcb
    → cur.priority ≡ c
    → s.tcbs x ≡ some t
    → t.priority ≡ c
    → s.tcbs y ≡ some ty
    → is_yield ty.state ≡ false
    → is_terminated ty.state ≡ false
    → s.has_run < length ys + 2
    → (u : Sched) × (my_pthread_yield_helper (suc fuel) now s ≡ ok (some y) u)
      × (u.current_tcb ≡ y)
      × (u.has_run ≡ s.has_run + 1)
      × ((v : Tcb) × (u.tcbs y ≡ some v) × (v.state ≡ running))
unfolding my_pthread_yield_helper
my_pthread_yield_helper_rotates s ls fuel now c x y ys cur t ty h lt e ec pc prio ex px ey ny nt
      more =
    let d : Distinct (x ∷ y ∷ ys) = subst (λ l. Distinct l) e (h.queues c lt).distinct in
    let ne : x ≢ y = d.0.0 in
    let r = requeue-Holds s ls c x (y ∷ ys) t h lt e ex px in
    let is : IsQueue r.tcbs (r.levels c) (y ∷ ys ++ x ∷ []) =
      subst (λ l. IsQueue r.tcbs (r.levels c) l) (update_self ls c (y ∷ ys ++ x ∷ []))
        (r.holds.queues c lt) in
    let s1 : Sched = record s { tcbs = r.tcbs; multi_level_priority_queue = r.levels } in
    let (n, ey') = r.links y (λ q. ne (sym q)) ty ey in
    let (px', (u0, eu)) = Chain-last r.tcbs (r.levels c).head y (ys ++ x ∷ []) is.chain in
    let at : last_of y (ys ++ x ∷ []) ≡ x = last_of-snoc y ys x in
    let ex' : r.tcbs x ≡ some u0 = ap r.tcbs (sym at) ∙ eu in
    let chosen =
      choose_current-head s1 c y (ys ++ x ∷ []) is lt
        (omega (arith, more, length-append ys (x ∷ []))) in
    let (m, runs, now_running) =
      install-runs s1 (my_pthread_yield_helper fuel now) now x y (with_next n ty) u0 is.chain.1
        (omega (arith, px', at)) ne ey' ex' ny nt in
    (
      record s1 { current_tcb = y; tcbs = m; has_run = s.has_run + 1 },
      simp (load_tcb-ok s s.current_tcb ec pc, prio, r.runs, chosen, runs),
      refl,
      refl,
      (_, now_running, refl),
    )

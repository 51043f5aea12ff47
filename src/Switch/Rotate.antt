-- ===== src/Switch/Rotate.antt =====
-- The first half of `my_pthread_yield_helper`: the current thread goes to the end of its level.
use virtual_memory_simulatio.Base.{
  ℕ, ◌<◌, ◌≡◌, refl, sym, ◌∙◌, ap, subst, List, [], ◌∷◌, ◌++◌, Option, some, true, false,
  if◌then◌else◌, Bool-cases, inl, inr,
}
use virtual_memory_simulatio.Threads.{
  Tcb, Queue, Sched, Run, pure, and_then, null, number_levels, ready, update, with_next, with_state,
}
use virtual_memory_simulatio.Threads.Access.{
  update_self, update_ne, load_tcb-ok, change_tcb-ok, load_level-ok, store_level-ok,
}
use virtual_memory_simulatio.Queue.Chain.{NotIn}
use virtual_memory_simulatio.Queue.Laws.{dequeue-IsQueue}
use virtual_memory_simulatio.Levels.{schedule_thread}
use virtual_memory_simulatio.Levels.Holds.{
  Lists, Holds, SchedHolds, IsFree, Reaches, schedule_thread-Holds,
}
use virtual_memory_simulatio.Levels.Move.{
  Holds-others, Holds-ext, update_twice, IsFree-away, level-IsQueue, take-IsFree, take-Holds,
}
use virtual_memory_simulatio.Switch.{is_terminated, requeue}

module _ (s : Sched) (ls : Lists) (c x : ℕ) (xs : List ℕ) where
  -- A block that has been taken off level `c` is put behind what is left there.
  put_back :
      (m : ℕ → Option Tcb) (levels : ℕ → Queue) (u w : Tcb) (r : Run ℕ)
      → c < number_levels
      → Holds m levels (update ls c xs)
      → IsFree x (update ls c xs)
      → m x ≡ some u
      → 0 < x
      → ((y : ℕ) → NotIn y (x ∷ []) → m y ≡ s.tcbs y)
      → r
        ≡ and_then
            (schedule_thread x c (record s { tcbs = m; multi_level_priority_queue = levels }))
            (λ _. pure x)
      → with_next null (record u { priority = c }) ≡ with_next null w
      → Reaches s r x (update ls c (xs ++ x ∷ [])) x w (x ∷ xs)
  put_back m levels u w r lt h free e p k q same =
      let here = update_self ls c xs in
      let t =
        schedule_thread-Holds (record s { tcbs = m; multi_level_priority_queue = levels })
          (update ls c xs) x c u h e p lt free in
      record {
        tcbs = t.tcbs;
        levels = t.levels;
        runs = q ∙ rw t.runs refl;
        holds = Holds-ext t.tcbs t.levels _ _ t.holds (λ i.
            update_twice ls c xs (update ls c xs c ++ x ∷ []) i
            ∙ ap (λ l. update ls c (l ++ x ∷ []) i) here);
        others = λ y o. t.others y (subst (λ l. NotIn y (x ∷ l)) (sym here) o) ∙ k y (o.0, tt);
        links = λ y ne t0 held. t.links y ne t0 (k y (ne, tt) ∙ held);
        placed = let (n, there) = t.placed in (n, there ∙ ap (λ v. some (with_next n v)) same);
      }

-- A block after its turn: READY, if it has not ended.
abbrev pub rested : Tcb → Tcb
rested t = if is_terminated t.state then t else with_state ready t

-- The first half of my_pthread_yield_helper moves the first block of a level that is not empty to
-- the end of it, returns it, and keeps the lists of the other levels; of the other control blocks
-- nothing but links of that level's changes. Conditions: the levels stand for lists no two of
-- which share a block, and the block has the priority of the level in which it stands.
pub requeue-Holds :
    (s : Sched) (ls : Lists) (c x : ℕ) (xs : List ℕ) (t : Tcb)
    → SchedHolds s ls
    → c < number_levels
    → ls c ≡ x ∷ xs
    → s.tcbs x ≡ some t
    → t.priority ≡ c
    → Reaches s (requeue c s) x (update ls c (xs ++ x ∷ [])) x (rested t) (x ∷ xs)
unfolding requeue
requeue-Holds s ls c x xs t h lt e held prio =
    let tk =
      dequeue-IsQueue s (s.multi_level_priority_queue c) x xs (level-IsQueue s ls c x xs h lt e) in
    let t1 : Tcb = with_next null tk.tcb in
    let m1 = update s.tcbs x (some t1) in
    let lv = update s.multi_level_priority_queue c tk.queue in
    let same : some t ≡ some tk.tcb = sym held ∙ tk.held in
    let eqt : t ≡ tk.tcb = cc same in
    let prio1 : tk.tcb.priority ≡ c = ap (λ u. u.priority) (sym eqt) ∙ prio in
    let at_level : record t { priority = c; next_tcb = null } ≡ with_next null t =
      ap (λ n. record t { priority = n; next_tcb = null }) (sym prio) in
    let known : with_next null (record tk.tcb { priority = c }) ≡ with_next null t =
      ap (λ v. with_next null (record v { priority = c })) (sym eqt) ∙ at_level in
    let s1 : Sched = record s { tcbs = m1 } in
    let s2 : Sched = record s { tcbs = m1; multi_level_priority_queue = lv } in
    let h2 = take-Holds s ls c x xs h lt e tk.tcb tk.queue tk.is_queue in
    let free = take-IsFree s ls c x xs h lt e tk.fresh in
    let e1 : m1 x ≡ some t1 = update_self s.tcbs x (some t1) in
    elim (Bool-cases (is_terminated t.state)) [
      | inl over ↦
          let ended : is_terminated tk.tcb.state ≡ true =
            ap (λ v. is_terminated v.state) (sym eqt) ∙ over in
          put_back s ls c x xs m1 lv t1 (rested t) _ lt h2 free e1 tk.pos
            (λ y o. update_ne s.tcbs x _ y o.0)
            (rw
              (
                load_level-ok s c lt,
                tk.runs,
                store_level-ok s1 c tk.queue lt,
                load_tcb-ok s2 x e1 tk.pos,
                ended,
                load_tcb-ok s2 x e1 tk.pos,
                prio1,
              )
              refl)
            (rw over known)
      | inr going ↦
          let live : is_terminated tk.tcb.state ≡ false =
            ap (λ v. is_terminated v.state) (sym eqt) ∙ going in
          let t2 : Tcb = with_state ready t1 in
          let m2 = update m1 x (some t2) in
          let s3 : Sched = record s { tcbs = m2; multi_level_priority_queue = lv } in
          put_back s ls c x xs m2 lv t2 (rested t) _ lt
            (Holds-others m1 m2 lv (update ls c xs) (x ∷ []) h2
              (λ i hi. IsFree-away x (update ls c xs) i hi free) (λ y o. update_ne m1 x _ y o.0))
            free (update_self m1 x (some t2)) tk.pos
            (λ y o. update_ne m1 x _ y o.0 ∙ update_ne s.tcbs x _ y o.0)
            (rw
              (
                load_level-ok s c lt,
                tk.runs,
                store_level-ok s1 c tk.queue lt,
                load_tcb-ok s2 x e1 tk.pos,
                live,
                change_tcb-ok s2 x (with_state ready) e1 tk.pos,
                load_tcb-ok s3 x (update_self m1 x (some t2)) tk.pos,
                prio1,
              )
              refl)
            (rw going (ap (with_state ready) known))
    ]

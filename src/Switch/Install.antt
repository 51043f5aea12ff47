-- ===== src/Switch/Install.antt =====
-- The second half of a turn: the chosen thread, which has not ended, is run.
use virtual_memory_simulatio.Base.{
  ℕ, length, ◌≤◌, ◌+◌, ◌<◌, ◌≡◌, refl, sym, List, Option, some, arith, false,
}
use virtual_memory_simulatio.Threads.{
  Timeval, Tcb, Sched, Run, Cmd, pure, ok, running, change_tcb, update, with_state,
}
use virtual_memory_simulatio.Threads.Access.{update_self, load_tcb-ok, change_tcb-ok}
use virtual_memory_simulatio.Threads.Related.{Related, Related-update, Related-trans, AllAt-Related}
use virtual_memory_simulatio.Switch.{is_terminated, is_yield, install}
use virtual_memory_simulatio.Switch.Single.{
  single, IsPlain, Single, SameKind, IsPlain-SameKind, SameFrame, SameFrame-trans, Holds-Related,
  Related-kinds, Within, Within-frame, Beside,
}

-- The run installs the context of `y`, which is the current thread then and is marked running.
pub record Starts (s : Sched) (y : ℕ) (xs : List ℕ) (r : Run (Option ℕ)) : Type 0 where
  pub final : Sched
  pub runs : r ≡ ok (some y) final
  pub current : final.current_tcb ≡ y
  pub single : Single final xs
  pub kinds : Related SameKind s.tcbs final.tcbs
  pub marked : (v : Tcb) × (final.tcbs y ≡ some v) × (v.state ≡ running)
  pub cells : final.cells ≡ s.cells
  pub few : (0 < final.has_run) × (final.has_run ≤ length xs)

-- It changes links of no other block but those of `xs`.
pub record Installs (s : Sched) (y : ℕ) (xs : List ℕ) (r : Run (Option ℕ)) : Type 0 where
  pub starts : Starts s y xs r
  pub within : Within xs s.tcbs starts.final.tcbs
  pub beside : Beside s starts.final

-- What `install` does to the chosen thread, around what `stamp` does.
install-changes :
    (s : Sched) (again : Cmd (Option ℕ)) (stamp : Cmd (Unit {0})) (now : Timeval) (y : ℕ)
    (t w : Tcb) (m2 : ℕ → Option Tcb)
    → s.current_tcb ≡ y
    → 0 < y
    → s.tcbs y ≡ some t
    → is_yield t.state ≡ false
    → is_terminated t.state ≡ false
    → stamp (record s { tcbs = update s.tcbs y (some (with_state running t)); current_tcb = y })
      ≡ ok tt (record s { tcbs = m2; current_tcb = y })
    → m2 y ≡ some w
    → install again stamp now s
      ≡ ok (some y) (record s {
        tcbs = update m2 y (some (record w { recent_start_time = now }));
        has_run = s.has_run + 1;
      })
unfolding install
install-changes s again stamp now y t w m2 cur py ey active live stamped ew = simp (
  cur,
  load_tcb-ok s y ey py,
  active,
  live,
  change_tcb-ok s y (with_state running) ey py,
  stamped,
  change_tcb-ok (record s { tcbs = m2; current_tcb = y }) y
      (λ v. record v { recent_start_time = now }) ew py,
)

-- A chosen thread that has not ended is run. `stamp` keeps the links, and what is running.
install-around :
    (s : Sched) (again : Cmd (Option ℕ)) (stamp : Cmd (Unit {0})) (now : Timeval) (y : ℕ)
    (xs : List ℕ) (t w : Tcb) (m2 : ℕ → Option Tcb)
    → Single s xs
    → s.current_tcb ≡ y
    → 0 < y
    → s.tcbs y ≡ some t
    → IsPlain t
    → is_terminated t.state ≡ false
    → s.has_run < length xs
    → stamp (record s { tcbs = update s.tcbs y (some (with_state running t)); current_tcb = y })
      ≡ ok tt (record s { tcbs = m2; current_tcb = y })
    → Related SameFrame (update s.tcbs y (some (with_state running t))) m2
    → m2 y ≡ some w
    → w.state ≡ running
    → Installs s y xs (install again stamp now s)
install-around s again stamp now y xs t w m2 g cur py ey (level, active) live few stamped r2 ew
      now_running =
    let t1 : Tcb = with_state running t in
    let m1 = update s.tcbs y (some t1) in
    let r1 : Related SameFrame s.tcbs m1 =
      Related-update SameFrame s.tcbs y t t1 ey (refl, ((refl, refl, refl), sym active, sym live))
        (λ v. (refl, ((refl, refl, refl), refl, refl))) in
    let w' : Tcb = record w { recent_start_time = now } in
    let m3 = update m2 y (some w') in
    let r3 : Related SameFrame m2 m3 =
      Related-update SameFrame m2 y w w' ew (refl, ((refl, refl, refl), refl, refl))
        (λ v. (refl, ((refl, refl, refl), refl, refl))) in
    let all : Related SameFrame s.tcbs m3 =
      Related-trans SameFrame SameFrame SameFrame s.tcbs m2 m3 SameFrame-trans
        (Related-trans SameFrame SameFrame SameFrame s.tcbs m1 m2 SameFrame-trans r1 r2) r3 in
    let s3 : Sched = record s { tcbs = m3 } in
    let starts : Starts s y xs (install again stamp now s) = record {
      final = record s3 { has_run = s.has_run + 1 };
      runs = install-changes s again stamp now y t w m2 cur py ey active live stamped ew;
      current = cur;
      single = record {
        holds = Holds-Related s.tcbs m3 s.multi_level_priority_queue (single xs) g.holds all;
        plain =
            AllAt-Related SameKind IsPlain s.tcbs m3 xs (Related-kinds s.tcbs m3 all)
              IsPlain-SameKind g.plain;
      };
      kinds = Related-kinds s.tcbs m3 all;
      marked = (w', update_self m2 y (some w'), now_running);
      cells = refl;
      few = (omega arith, omega (arith, few));
    } in
    record {
      starts = starts;
      within = Within-frame xs s.tcbs m3 all;
      beside = (refl, refl, refl, refl);
    }

-- With the time at which the thread before was passed over.
pub install-Installs :
    (s : Sched) (again : Cmd (Option ℕ)) (now : Timeval) (x y : ℕ) (xs : List ℕ) (t u : Tcb)
    → Single s xs
    → s.current_tcb ≡ y
    → 0 < y
    → s.tcbs y ≡ some t
    → IsPlain t
    → is_terminated t.state ≡ false
    → 0 < x
    → s.tcbs x ≡ some u
    → s.has_run < length xs
    → Installs s y xs (install again (change_tcb x (λ v. record v { last_yield_time = now })) now s)
install-Installs s again now x y xs t u g cur py ey plain live px ex few =
    let t1 : Tcb = with_state running t in
    let m1 = update s.tcbs y (some t1) in
    let r1 : Related SameKind s.tcbs m1 =
      Related-update SameKind s.tcbs y t t1 ey ((refl, refl, refl), sym plain.1, sym live)
        (λ v. ((refl, refl, refl), refl, refl)) in
    let (u1, eu1, k1) = r1 x u ex in
    let u2 : Tcb = record u1 { last_yield_time = now } in
    let m2 = update m1 x (some u2) in
    let r2 : Related SameFrame m1 m2 =
      Related-update SameFrame m1 x u1 u2 eu1 (refl, ((refl, refl, refl), refl, refl))
        (λ v. (refl, ((refl, refl, refl), refl, refl))) in
    let (w, ew, now_running) =
      Related-update (λ v w. w.state ≡ v.state) m1 x u1 u2 eu1 refl (λ v. refl) y t1
        (update_self s.tcbs y (some t1)) in
    install-around s again (change_tcb x (λ v. record v { last_yield_time = now })) now y xs t w m2
      g cur py ey plain live few
      (change_tcb-ok (record s { tcbs = m1; current_tcb = y }) x
        (λ v. record v { last_yield_time = now }) eu1 px)
      r2 ew now_running

pub install-Installs-pure :
    (s : Sched) (again : Cmd (Option ℕ)) (now : Timeval) (y : ℕ) (xs : List ℕ) (t : Tcb)
    → Single s xs
    → s.current_tcb ≡ y
    → 0 < y
    → s.tcbs y ≡ some t
    → IsPlain t
    → is_terminated t.state ≡ false
    → s.has_run < length xs
    → Installs s y xs (install again (pure tt) now s)
install-Installs-pure s again now y xs t g cur py ey plain live few =
    let t1 : Tcb = with_state running t in
    let m1 = update s.tcbs y (some t1) in
    install-around s again (pure tt) now y xs t t1 m1 g cur py ey plain live few refl
      (λ z v e. (v, e, (refl, ((refl, refl, refl), refl, refl)))) (update_self s.tcbs y (some t1))
      refl

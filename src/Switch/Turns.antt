-- ===== src/Switch/Turns.antt =====
-- A turn of `my_pthread_yield_helper` that starts a thread, and one that passes over a thread that
-- has ended.
use virtual_memory_simulatio.Base.{
  ℕ, suc, ◌<◌, ◌≡◌, sym, ◌∙◌, ap, List, [], ◌∷◌, ◌++◌, Option, some, arith, true, false,
}
use virtual_memory_simulatio.Threads.{Timeval, Tcb, Sched, Cmd, change_tcb}
use virtual_memory_simulatio.Threads.Access.{load_tcb-ok}
use virtual_memory_simulatio.Threads.Related.{Related, Related-trans}
use virtual_memory_simulatio.Switch.{is_terminated, install, my_pthread_yield_helper}
use virtual_memory_simulatio.Switch.Single.{IsPlain, Single, SameKind, SameKind-trans}
use virtual_memory_simulatio.Switch.Turn.{my_pthread_yield_helper-Turn}
use virtual_memory_simulatio.Switch.Install.{Starts, install-Installs}

-- A chosen thread that has ended is passed over.
pub install-skips :
    (s : Sched) (again : Cmd (Option ℕ)) (stamp : Cmd (Unit {0})) (now : Timeval) (t : Tcb)
    → s.tcbs s.current_tcb ≡ some t
    → 0 < s.current_tcb
    → IsPlain t
    → is_terminated t.state ≡ true
    → install again stamp now s ≡ again s
unfolding install
install-skips s again stamp now t e p (level, active) over =
    simp (load_tcb-ok s s.current_tcb e p, active, over)

-- The current thread has a block, in level 0.
pub record Current (s : Sched) : Type 0 where
  pub block : Tcb
  pub held : s.tcbs s.current_tcb ≡ some block
  pub pos : 0 < s.current_tcb
  pub level : block.priority ≡ 0

-- The first thread of a level, when it is the current one.
pub head-Current :
    (s : Sched) (y : ℕ) (ys : List ℕ) → Single s (y ∷ ys) → s.current_tcb ≡ y → Current s
head-Current s y ys g at =
    let (t, e, (level, active)) = g.plain.0 in
    record {
      block = t;
      held = ap s.tcbs at ∙ e;
      pos = omega (arith, at, (g.holds.queues 0 (omega arith)).chain.1);
      level = level;
    }

-- A turn that ends at a thread that can run.
pub turn-Starts :
    (s : Sched) (x y : ℕ) (xs ys : List ℕ) (fuel : ℕ) (now : Timeval) (t : Tcb)
    → Single s (x ∷ xs)
    → Current s
    → xs ++ x ∷ [] ≡ y ∷ ys
    → s.tcbs y ≡ some t
    → is_terminated t.state ≡ false
    → Starts s y (y ∷ ys) (my_pthread_yield_helper (suc fuel) now s)
turn-Starts s x y xs ys fuel now t g c turned ey live =
    let a = my_pthread_yield_helper-Turn s x y xs ys c.block g c.held c.pos c.level turned in
    let (tx, ex, plain_x) = g.plain.0 in
    let (ux, ex', kind_x) = a.kinds x tx ex in
    let (u, ey', (same_level, same_yield, same_end)) = a.kinds y t ey in
    let (v, ev, plain) = a.single.plain.0 in
    let at : some v ≡ some u = sym ev ∙ ey' in
    let eq : v ≡ u = cc at in
    let st =
      (install-Installs a.final (my_pthread_yield_helper fuel now) now x y (y ∷ ys) v ux a.single
        a.current (a.single.holds.queues 0 (omega arith)).chain.1 ev plain
        (ap (λ w. is_terminated w.state) eq ∙ same_end ∙ live)
        (g.holds.queues 0 (omega arith)).chain.1 ex' a.few).starts in
    record {
      final = st.final;
      runs = a.runs fuel now ∙ st.runs;
      current = st.current;
      single = st.single;
      kinds =
          Related-trans SameKind SameKind SameKind s.tcbs a.final.tcbs st.final.tcbs SameKind-trans
            a.kinds st.kinds;
      marked = st.marked;
      cells = st.cells ∙ a.cells;
      few = st.few;
    }

-- A turn that ends at a thread that has ended goes on to the next turn.
pub record Passes (s : Sched) (x y : ℕ) (xs ys : List ℕ) : Type 0 where
  pub final : Sched
  pub runs :
      (fuel : ℕ) (now : Timeval)
      → my_pthread_yield_helper (suc fuel) now s ≡ my_pthread_yield_helper fuel now final
  pub single : Single final (y ∷ ys)
  pub current : Current final
  pub kinds : Related SameKind s.tcbs final.tcbs
  pub cells : final.cells ≡ s.cells

pub turn-Passes :
    (s : Sched) (x y : ℕ) (xs ys : List ℕ) (t : Tcb)
    → Single s (x ∷ xs)
    → Current s
    → xs ++ x ∷ [] ≡ y ∷ ys
    → s.tcbs y ≡ some t
    → is_terminated t.state ≡ true
    → Passes s x y xs ys
turn-Passes s x y xs ys t g c turned ey over =
    let a = my_pthread_yield_helper-Turn s x y xs ys c.block g c.held c.pos c.level turned in
    let (u, ey', (same_level, same_yield, same_end)) = a.kinds y t ey in
    let (v, ev, plain) = a.single.plain.0 in
    let at : some v ≡ some u = sym ev ∙ ey' in
    let eq : v ≡ u = cc at in
    let here = head-Current a.final y ys a.single a.current in
    record {
      final = a.final;
      runs = λ fuel now.
          a.runs fuel now
          ∙ install-skips a.final (my_pthread_yield_helper fuel now)
              (change_tcb x (λ w. record w { last_yield_time = now })) now v
              (ap a.final.tcbs a.current ∙ ev) here.pos plain
              (ap (λ w. is_terminated w.state) eq ∙ same_end ∙ over);
      single = a.single;
      current = here;
      kinds = a.kinds;
      cells = a.cells;
    }

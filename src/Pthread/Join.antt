-- ===== src/Pthread/Join.antt =====
-- `my_pthread_join` of a thread that has called `my_pthread_exit`, after the switch to another one.
mod Ended
mod Tests
use virtual_memory_simulatio.Base.{
  ℕ, ◌+◌, ◌<◌, ◌≡◌, ◌≢◌, refl, sym, ◌∙◌, ap, subst, All, List, [], ◌∷◌, ◌++◌, Option, some, arith,
  ==_ne, ◌==◌, inl, inr, Bool-cases, length, length-append, true, false,
}
use virtual_memory_simulatio.Threads.{
  Timeval, Tcb, Sched, ok, and_then, ◌>>=◌, ◌>>◌, number_levels, terminated, update, with_state,
}
use virtual_memory_simulatio.Threads.Access.{update_self, update_ne, load_tcb-ok, change_tcb-ok}
use virtual_memory_simulatio.Threads.Related.{
  Related, Related-update, AllAt, AllAt-Related, AllAt-snoc,
}
use virtual_memory_simulatio.Queue.Chain.{IsQueue-frame}
use virtual_memory_simulatio.Levels.Holds.{Lists, SchedHolds, update_elim}
use virtual_memory_simulatio.Levels.Lookup.{has_tid, first_with, listed, get_tcb-first_with}
use virtual_memory_simulatio.Switch.{
  is_terminated, is_yield, my_pthread_yield_helper, wrapper_return,
}
use virtual_memory_simulatio.Switch.Single.{single, IsPlain, Single, SameKind}
use virtual_memory_simulatio.Switch.Turns.{Current, head-Current}
use virtual_memory_simulatio.Switch.Fair.{IsEnded, my_pthread_yield_helper-Starts}
use virtual_memory_simulatio.Pthread.{my_pthread_exit, my_pthread_join, value}
use virtual_memory_simulatio.Pthread.Queued.{SameLinks-field}
use mathlib.Core.List.{append-nil}
use virtual_memory_simulatio.Pthread.Join.Ended.{first_with-update, my_pthread_join-ended}

-- The current thread `x`, with the block `t`, stands at the head of level 0 and will be followed by
-- `y`, which has not ended, once those of `zs` are passed over. In the order after the switch, no
-- thread with its tid stands before it.
pub record Leaves (s : Sched) (x y : ℕ) (xs zs ys : List ℕ) (t : Tcb) : Type 0 where
  pub single : Single s (x ∷ xs)
  pub current : s.current_tcb ≡ x
  pub held : s.tcbs x ≡ some t
  pub turned : xs ++ x ∷ [] ≡ zs ++ y ∷ ys
  pub passed : AllAt s.tcbs IsEnded zs
  pub other : y ≢ x
  pub block : Tcb
  pub next : s.tcbs y ≡ some block
  pub live : is_terminated block.state ≡ false
  pub first : first_with s.tcbs t.tid (y ∷ ys ++ zs) ≡ x

-- What the end of a thread does to the blocks.
abbrev Ends : Tcb → Tcb → Type 0
Ends t u =
    (u.priority ≡ t.priority)
    × (is_yield t.state ≡ false → is_yield u.state ≡ false)
    × (IsEnded t → IsEnded u)

-- The thread is marked TERMINATED, and some cells are written.
abbrev ended : Sched → ℕ → Tcb → (ℕ → ℕ) → Sched
ended s x t cs = record s { cells = cs; tcbs = update s.tcbs x (some (with_state terminated t)) }

Leaves-ended :
    (s : Sched) (x y : ℕ) (xs zs ys : List ℕ) (t : Tcb) (cs : ℕ → ℕ)
    → Leaves s x y xs zs ys t
    → Leaves (ended s x t cs) x y xs zs ys (with_state terminated t)
Leaves-ended s x y xs zs ys t cs l =
    let t' : Tcb = with_state terminated t in
    let m1 = update s.tcbs x (some t') in
    let r : Related Ends s.tcbs m1 =
      Related-update Ends s.tcbs x t t' l.held (refl, (λ e. refl), (λ e. refl))
        (λ v. (refl, (λ e. e), (λ e. e))) in
    record {
      single = record {
        holds = record {
          queues = λ i lt.
              IsQueue-frame s.tcbs m1 (s.multi_level_priority_queue i) (single (x ∷ xs) i)
                (l.single.holds.queues i lt)
                (SameLinks-field s.tcbs x t t' (single (x ∷ xs) i) l.held refl);
          apart = l.single.holds.apart;
        };
        plain =
            AllAt-Related Ends IsPlain s.tcbs m1 (x ∷ xs) r (λ a b k p. (k.0 ∙ p.0, k.1 p.1))
              l.single.plain;
      };
      current = l.current;
      held = update_self s.tcbs x (some t');
      turned = l.turned;
      passed = AllAt-Related Ends IsEnded s.tcbs m1 zs r (λ a b k e. k.2 e) l.passed;
      other = l.other;
      block = l.block;
      next = update_ne s.tcbs x (some t') y l.other ∙ l.next;
      live = l.live;
      first = first_with-update s.tcbs t.tid x t t' (y ∷ ys ++ zs) l.held refl ∙ l.first;
    }

my_pthread_exit-ended :
    (s : Sched) (x y : ℕ) (xs zs ys : List ℕ) (t : Tcb) (v : ℕ)
    → Leaves s x y xs zs ys t
    → my_pthread_exit v s ≡ ok tt (ended s x t (update s.cells t.return_value v))
unfolding my_pthread_exit
my_pthread_exit-ended s x y xs zs ys t v l =
    let pos : 0 < s.current_tcb =
      omega (arith, l.current, (l.single.holds.queues 0 (omega arith)).chain.1) in
    let held : s.tcbs s.current_tcb ≡ some t = ap s.tcbs l.current ∙ l.held in
    let s0 : Sched = record s { cells = update s.cells t.return_value v } in
    subst (λ z. my_pthread_exit v s ≡ ok tt (ended s z t s0.cells)) l.current
      (rw
        (
          load_tcb-ok s s.current_tcb held pos,
          change_tcb-ok s0 s.current_tcb (with_state terminated) held pos,
        )
        refl)

wrapper_return-ended :
    (s : Sched) (x y : ℕ) (xs zs ys : List ℕ) (t : Tcb) (v : ℕ)
    → Leaves s x y xs zs ys t
    → wrapper_return x v s ≡ ok tt (ended s x t (update s.cells t.return_value v))
unfolding wrapper_return
wrapper_return-ended s x y xs zs ys t v l =
    let pos : 0 < x = (l.single.holds.queues 0 (omega arith)).chain.1 in
    simp (
      load_tcb-ok s x l.held pos,
      change_tcb-ok (record s { cells = update s.cells t.return_value v }) x (with_state terminated)
          l.held pos,
    )

-- The switch and the join, from the state in which the thread has ended.
joined :
    (s : Sched) (x y : ℕ) (xs zs ys : List ℕ) (t : Tcb) (v fuel joins : ℕ) (now : Timeval)
    → Leaves s x y xs zs ys t
    → length zs < fuel
    → length (x ∷ xs) < joins
    → (u : Sched) × ((my_pthread_yield_helper fuel now >>= λ _. my_pthread_join joins t.tid)
          (ended s x t (update s.cells t.return_value v))
        ≡ ok (value v) u)
      × (u.current_tcb ≡ y)
joined s x y xs zs ys t v fuel joins now l few enough =
    let cs = update s.cells t.return_value v in
    let k = Leaves-ended s x y xs zs ys t cs l in
    let (u, runs, at) =
      my_pthread_join-ended (ended s x t cs) x y xs zs ys fuel joins now (with_state terminated t)
        k.block k.single k.current k.turned k.passed k.next k.live few enough k.held refl k.first in
    (u, runs ∙ ap (λ n. ok (value n) u) (update_self s.cells t.return_value v), at)

-- When the current thread calls my_pthread_exit and my_pthread_yield_helper switches to another
-- thread, a my_pthread_join of the thread that has exited ends at once with the value that was
-- given to my_pthread_exit. Conditions: all threads stand in level 0 and none has yielded, the
-- current thread is at the head of the level, the threads passed over have ended and the other
-- one, which the helper comes to behind them, has not, no thread that stands before the current
-- one in the order after the switch has its tid, and the fuel exceeds the number of threads passed
-- over and that of all threads.
pub my_pthread_join-exit :
    (s : Sched) (x y : ℕ) (xs zs ys : List ℕ) (t : Tcb) (v fuel joins : ℕ) (now : Timeval)
    → Leaves s x y xs zs ys t
    → length zs < fuel
    → length (x ∷ xs) < joins
    → (u : Sched) × (and_then
          (my_pthread_exit v s)
          (λ _. my_pthread_yield_helper fuel now >>= λ _. my_pthread_join joins t.tid)
        ≡ ok (value v) u)
      × (u.current_tcb ≡ y)
my_pthread_join-exit s x y xs zs ys t v fuel joins now l few enough =
    let (u, runs, at) = joined s x y xs zs ys t v fuel joins now l few enough in
    (u, rw (my_pthread_exit-ended s x y xs zs ys t v l) runs, at)

-- When the first pause of thread_function_wrapper returns without a switch after the thread's
-- function has called my_pthread_exit, the function's result overwrites the value that was given
-- to my_pthread_exit: after the switch to another thread, a my_pthread_join of the thread ends
-- with the function's result. Conditions: those of my_pthread_join-exit.
pub my_pthread_join-exit_overwritten :
    (s : Sched) (x y : ℕ) (xs zs ys : List ℕ) (t : Tcb) (v result fuel joins : ℕ) (now : Timeval)
    → Leaves s x y xs zs ys t
    → length zs < fuel
    → length (x ∷ xs) < joins
    → (u : Sched) × (and_then (my_pthread_exit v s) (λ _.
          wrapper_return x result
          >> (my_pthread_yield_helper fuel now >>= λ _. my_pthread_join joins t.tid))
        ≡ ok (value result) u)
      × (u.current_tcb ≡ y)
my_pthread_join-exit_overwritten s x y xs zs ys t v result fuel joins now l few enough =
    let cs = update s.cells t.return_value v in
    let k = Leaves-ended s x y xs zs ys t cs l in
    let (u, runs, at) =
      joined (ended s x t cs) x y xs zs ys (with_state terminated t) result fuel joins now k few
        enough in
    (
      u,
      rw
          (
            my_pthread_exit-ended s x y xs zs ys t v l,
            wrapper_return-ended (ended s x t cs) x y xs zs ys (with_state terminated t) result k,
          )
          runs,
      at,
    )

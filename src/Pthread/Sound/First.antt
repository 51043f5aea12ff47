-- ===== src/Pthread/Sound/First.antt =====
-- The first `my_pthread_create`, which initialises the scheduler.
use virtual_memory_simulatio.Base.{
  ℕ, ◌+◌, ◌*◌, ◌<◌, ◌==◌, ◌≡◌, ◌≢◌, refl, sym, ◌∙◌, ap, subst, [], ◌∷◌, none, some, arith, true,
  false, inl, inr, ℤ, pos,
}
use virtual_memory_simulatio.Threads.{Tcb, Sched, ok, null, update, ready}
use virtual_memory_simulatio.Threads.Access.{update_self, update_ne, change_tcb-ok}
use virtual_memory_simulatio.Queue.{queue_init}
use virtual_memory_simulatio.Levels.Holds.{SchedHolds, schedule_thread-Holds}
use virtual_memory_simulatio.Switch.Single.{single}
use virtual_memory_simulatio.Pthread.{
  NewThread, time_slice, init_scheduler, create_main, create_node, my_pthread_create,
}
use virtual_memory_simulatio.Pthread.Create.{Granted, create_node-Creates}
use virtual_memory_simulatio.Pthread.Sound.{Sound, IsSound, single-IsFree}
use virtual_memory_simulatio.Pthread.Sound.Creates.{created-Sound}

-- The globals before the first call.
pub record Unused (s : Sched) : Type 0 where
  pub init : s.scheduler_init ≡ false
  pub last : s.last_tid ≡ 0
  pub after : s.after_unlock_priority ≡ none

-- The blocks of the first two threads, no failure of a system call, and both stacks.
pub record FirstTwo (s : Sched) (main node : NewThread) : Type 0 where
  pub main_pos : 0 < main.tcb_node
  pub node_pos : 0 < node.tcb_node
  pub differ : node.tcb_node ≢ main.tcb_node
  pub new : s.tcbs node.tcb_node ≡ none
  pub main_context : main.getcontext_fails ≡ false
  pub granted : Granted node

-- After the block of the main thread has been scheduled.
pub record Prepared (s : Sched) (main node : NewThread) : Type 0 where
  pub begun : Sched
  pub runs : my_pthread_create main node s ≡ create_node node begun
  pub sound : Sound (record begun { last_tid = 1 }) (λ _. false) (main.tcb_node ∷ []) (λ _. [])
  pub new : begun.tcbs node.tcb_node ≡ none
  pub last : begun.last_tid ≡ 0
  pub current : begun.current_tcb ≡ main.tcb_node

create_main-Prepared :
    (s : Sched) (main node : NewThread) → Unused s → FirstTwo s main node → Prepared s main node
unfolding my_pthread_create create_main init_scheduler queue_init
create_main-Prepared s main node z f =
    let x = main.tcb_node in
    let b : Tcb = record main.blank { tid = s.last_tid; return_value = main.return_value } in
    let b' : Tcb = record b { context = main.context; state = ready } in
    let m1 = update s.tcbs x (some b) in
    let m2 = update m1 x (some b') in
    let s1 : Sched = record s {
      scheduler_init = true;
      multi_level_priority_queue = λ i. queue_init;
      main_tcb = null;
      current_tcb = null;
      priority_time_slices = λ i. time_slice * (i + 1);
    } in
    let s2 : Sched = record s1 { tcbs = m1 } in
    let s3 : Sched = record s1 { tcbs = m2 } in
    let h : SchedHolds s3 (λ _. []) = record {
      queues = λ i lt. record { chain = refl; distinct = tt; size = refl; tail = refl };
      apart = λ i j hi hj ne. tt;
    } in
    let r =
      schedule_thread-Holds s3 (λ _. []) x 0 b' h (update_self m1 x (some b')) f.main_pos
        (omega arith) (λ i lt. tt) in
    let s5 : Sched = record s3 {
      tcbs = r.tcbs;
      multi_level_priority_queue = r.levels;
      current_tcb = x;
    } in
    let (n, placed) = r.placed in
    let is_first : (s.last_tid == 0) ≡ true = let e = z.last in ground arith in
    record {
      begun = s5;
      runs = simp (
        z.init,
        is_first,
        f.main_context,
        change_tcb-ok s2 x (λ t. record t { context = main.context; state = ready })
            (update_self s.tcbs x (some b)) f.main_pos,
        r.runs,
      );
      sound = record {
        single = record {
          holds = record { queues = r.holds.queues; apart = r.holds.apart };
          plain = ((_, placed, (refl, refl)), tt);
        };
        waiting = λ mu made_it. absurd (cc made_it);
        apart = λ i j ne made_i made_j. tt;
        current = inr (record { block = _; held = placed; pos = f.main_pos; level = refl });
        after = inl z.after;
        init = refl;
        later = omega arith;
      };
      new =
          r.others node.tcb_node (f.differ, tt)
          ∙ update_ne m1 x _ node.tcb_node f.differ
          ∙ update_ne s.tcbs x _ node.tcb_node f.differ
          ∙ f.new;
      last = z.last;
      current = refl;
    }

-- The call returns 0 and the tid 1, and the main thread goes on.
pub record Begins (s : Sched) (main node : NewThread) : Type 0 where
  pub final : Sched
  pub runs : my_pthread_create main node s ≡ ok (pos 0, 1) final
  pub current : final.current_tcb ≡ main.tcb_node
  pub sound : IsSound final (λ _. false)

pub my_pthread_create-Begins :
    (s : Sched) (main node : NewThread) → Unused s → FirstTwo s main node → Begins s main node
my_pthread_create-Begins s main node z f =
    let b = create_main-Prepared s main node z f in
    let x = main.tcb_node in
    let c =
      create_node-Creates b.begun (single (x ∷ [])) node
        (record { queues = b.sound.single.holds.queues; apart = b.sound.single.holds.apart })
        f.node_pos (single-IsFree node.tcb_node (x ∷ []) (f.differ, tt)) f.granted in
    let tid : b.begun.last_tid + 1 ≡ 1 = omega (arith, b.last) in
    record {
      final = c.final;
      runs = b.runs ∙ c.runs ∙ ap (λ n. ok (pos 0, n) c.final) tid;
      current = c.current ∙ b.current;
      sound =
          created-Sound b.begun c.final (λ _. false) (x ∷ []) (λ _. []) 1 node f.granted
            (b.begun.last_tid + 1) (create_node node b.begun) _ b.sound b.new (omega arith) c
            c.runs;
    }

pub my_pthread_create-Sound_first :
    (s t : Sched) (main node : NewThread) (r : ℤ × ℕ)
    → Unused s
    → FirstTwo s main node
    → my_pthread_create main node s ≡ ok r t
    → IsSound t (λ _. false)
my_pthread_create-Sound_first s t main node r z f e =
    let b = my_pthread_create-Begins s main node z f in
    let both : ok (pos 0, 1) b.final ≡ ok r t = sym b.runs ∙ e in
    let same : b.final ≡ t = cc both in subst (λ w. IsSound w (λ _. false)) same b.sound

-- ===== src/Pthread/Sound/Locks.antt =====
-- The second half of a round of `my_pthread_mutex_lock` in a sound state.
use virtual_memory_simulatio.Base.{
  ℕ, ◌≡◌, ◌≢◌, refl, sym, ◌∙◌, List, [], ◌∷◌, ◌++◌, some, arith, true, Bool, inl, inr, Bool-cases,
  ◌==◌,
}
use virtual_memory_simulatio.Threads.{Timeval, Tcb, Mutex, Sched, ok, update}
use virtual_memory_simulatio.Threads.Related.{Related, AllAt-Related}
use virtual_memory_simulatio.Queue.Chain.{
  NotIn, Apart, Apart-nil, Apart-cons, Apart-tail, Apart-append, NotIn-of_Apart,
}
use virtual_memory_simulatio.Levels.Holds.{update_elim, cons-Apart}
use virtual_memory_simulatio.Switch.Single.{single, IsPlain}
use virtual_memory_simulatio.Pthread.{lock_wait}
use virtual_memory_simulatio.Pthread.Unlock.{Waits}
use virtual_memory_simulatio.Pthread.Queued.{lock_wait-Queued}
use virtual_memory_simulatio.Pthread.Sound.{
  Sound, IsSound, Alike, IsPlain-Alike, Waiting-kept, Current-kept, Within-others, Holds-single,
  Related-links,
}
use virtual_memory_simulatio.Pthread.Sound.Creates.{AllAt-append}

pub Sound-Waits :
    (s : Sched) (made : ℕ → Bool) (xs : List ℕ) (wait : ℕ → List ℕ) (mu : ℕ)
    → Sound s made xs wait
    → made mu ≡ true
    → Waits s mu (wait mu) (single xs)
Sound-Waits s made xs wait mu g made_it =
    let w = g.waiting mu made_it in
    record {
      is_queue = w.queue;
      free = λ i lt.
          update_elim (λ l. Apart (wait mu) l) (λ _. []) 0 xs i (λ _. w.off)
            (λ _. Apart-nil (wait mu));
    }

-- The head of level 0 goes to the wait queue.
pub queued-Sound :
    (s : Sched) (made : ℕ → Bool) (x : ℕ) (xs : List ℕ) (wait : ℕ → List ℕ) (mu : ℕ) (now : Timeval)
    → Sound s made (x ∷ xs) wait
    → made mu ≡ true
    → (u : Sched) × (lock_wait mu 0 now s ≡ ok tt u) × IsSound u made
queued-Sound s made x xs wait mu now g made_it =
    let q =
      lock_wait-Queued s mu now 0 x xs (wait mu) (single (x ∷ xs)) g.single.holds
        (Sound-Waits s made (x ∷ xs) wait mu g made_it) (omega arith) refl in
    let m : Mutex = record (s.mutexes mu) { lock_wait_queue = q.queue } in
    let u : Sched = record s {
      tcbs = q.tcbs;
      multi_level_priority_queue = q.levels;
      mutexes = update s.mutexes mu m;
    } in
    let (t, ex, plain_x) = g.single.plain.0 in
    let (n, placed) = q.placed t ex in
    let moved : Tcb = record t { last_yield_time = now } in
    let alike : Related Alike s.tcbs u.tcbs =
      Related-links s.tcbs u.tcbs x n moved
        (λ v held.
          let same : some v ≡ some t = sym held ∙ ex in
          let eq : v ≡ t = cc same in rw eq (refl, λ p. p))
        q.links placed in
    let away : (nu : ℕ) → made nu ≡ true → NotIn x (wait nu) =
      λ nu made_nu. NotIn-of_Apart x xs (wait nu) (g.waiting nu made_nu).off in
    let wait' = update wait mu (wait mu ++ x ∷ []) in
    let sound : Sound u made xs wait' = record {
      single = record {
        holds = Holds-single u (x ∷ xs) xs q.holds;
        plain = AllAt-Related Alike IsPlain s.tcbs u.tcbs xs alike IsPlain-Alike g.single.plain.1;
      };
      waiting = λ nu made_nu. elim (Bool-cases (nu == mu)) [
        | inl hit ↦ rw hit (record {
          queue = q.waiting;
          plain =
              AllAt-append u.tcbs IsPlain x (wait mu) _
                (AllAt-Related Alike IsPlain s.tcbs u.tcbs (wait mu) alike IsPlain-Alike
                  (g.waiting mu made_it).plain)
                placed plain_x;
          off = q.free 0 (omega arith);
        })
        | inr miss ↦
            let ne : nu ≢ mu = ground arith in
            let w = g.waiting nu made_nu in
            rw miss (
              Waiting-kept s u (s.mutexes nu) (s.mutexes nu) (x ∷ wait mu) (wait nu) (x ∷ xs) xs w
                alike (Within-others s.tcbs u.tcbs (x ∷ wait mu) q.others)
                (Apart-cons x (wait mu) (wait nu) (g.apart nu mu ne made_nu made_it)
                  (away nu made_nu))
                refl (Apart-tail x xs (wait nu) w.off))
      ];
      apart = λ i j ne made_i made_j. elim (Bool-cases (i == mu)) [
        | inl hit ↦ elim (Bool-cases (j == mu)) [
          | inl at ↦ absurd (ne (ground arith))
          | inr off ↦
              let far : mu ≢ j = ground arith in
              rw (hit, off)
                (cons-Apart x (wait mu) (wait j) (away j made_j) (g.apart mu j far made_it made_j))
        ]
        | inr miss ↦ elim (Bool-cases (j == mu)) [
          | inl at ↦
              let far : i ≢ mu = ground arith in
              rw (miss, at)
                (Apart-append x (wait mu) (wait i) (g.apart i mu far made_i made_it)
                  (away i made_i))
          | inr off ↦ rw (miss, off) (g.apart i j ne made_i made_j)
        ]
      ];
      current = Current-kept s u alike refl g.current;
      after = g.after;
      init = g.init;
      later = g.later;
    } in
    (u, q.runs, record { level = xs; wait = wait'; sound = sound })

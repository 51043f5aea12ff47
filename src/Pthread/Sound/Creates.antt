-- ===== src/Pthread/Sound/Creates.antt =====
-- `my_pthread_create` after the first one.
use virtual_memory_simulatio.Base.{
  ℕ, ◌+◌, ◌<◌, ◌≡◌, sym, ◌∙◌, ap, subst, List, [], ◌∷◌, ◌++◌, Option, none, some, arith, Bool, ◌⊎◌,
  inl, inr, ℤ, pos, Bool-cases, ◌==◌,
}
use virtual_memory_simulatio.Threads.{Tcb, Sched, Run, ok, update}
use virtual_memory_simulatio.Threads.Related.{Related, AllAt, AllAt-Related}
use virtual_memory_simulatio.Queue.Chain.{NotIn, Apart-cons, Apart-append}
use virtual_memory_simulatio.Switch.{is_yield}
use virtual_memory_simulatio.Switch.Single.{single, IsPlain}
use virtual_memory_simulatio.Pthread.{NewThread, my_pthread_create}
use virtual_memory_simulatio.Pthread.Create.{Granted, Creates, my_pthread_create-Creates}
use virtual_memory_simulatio.Pthread.Sound.{
  Sound, IsSound, Alike, IsPlain-Alike, Alike-refl, Waiting-kept, Current-kept, Within-others,
  Holds-single, single-IsFree,
}

-- Where no block is, none of those in a list is.
NotIn-fresh :
    (m : ℕ → Option Tcb) (P : Tcb → Type 0) (x : ℕ) (xs : List ℕ)
    → m x ≡ none
    → AllAt m P xs
    → NotIn x xs
NotIn-fresh m P x [] e a = tt
NotIn-fresh m P x (y ∷ ys) e ((t, held, p), a) = (
  λ same. let clash : none ≡ some t = sym e ∙ ap m same ∙ held in absurd (cc clash),
  NotIn-fresh m P x ys e a,
)

pub AllAt-append :
    (m : ℕ → Option Tcb) (P : Tcb → Type 0) (x : ℕ) (xs : List ℕ) (t : Tcb)
    → AllAt m P xs
    → m x ≡ some t
    → P t
    → AllAt m P (xs ++ x ∷ [])
AllAt-append m P x [] t a e p = ((t, e, p), tt)
AllAt-append m P x (y ∷ ys) t (here, a) e p = (here, AllAt-append m P x ys t a e p)

-- What a call needs beside a sound state: a new block, and that no system call fails and both stacks
-- are allocated.
pub record Fresh (s : Sched) (n : NewThread) : Type 0 where
  pub new : s.tcbs n.tcb_node ≡ none
  pub pos : 0 < n.tcb_node
  pub granted : Granted n

-- The new thread is the last one of level 0. `k` is what counts the threads before.
pub created-Sound :
    (s t : Sched) (made : ℕ → Bool) (xs : List ℕ) (wait : ℕ → List ℕ) (k : ℕ) (n : NewThread)
    (g : Granted n) (tid : ℕ) (c : Run (ℤ × ℕ)) (r : ℤ × ℕ)
    → Sound (record s { last_tid = k }) made xs wait
    → s.tcbs n.tcb_node ≡ none
    → 0 < tid
    → Creates s c n g tid (update (single xs) 0 (xs ++ n.tcb_node ∷ [])) (n.tcb_node ∷ xs)
    → c ≡ ok r t
    → IsSound t made
created-Sound s t made xs wait k n g tid run r v new later c e =
    let x = n.tcb_node in
    let s0 : Sched = record s { last_tid = k } in
    let out = NotIn-fresh s.tcbs IsPlain x xs new v.single.plain in
    let (b, there, is_tid, is_ready, level, _, _) = c.born in
    let u = c.final in
    let alike : Related Alike s.tcbs u.tcbs = λ z w held. elim (Bool-cases (z == x)) [
      | inl hit ↦
          let at : z ≡ x = ground arith in
          let clash : none ≡ some w = sym new ∙ ap s.tcbs (sym at) ∙ held in absurd (cc clash)
      | inr miss ↦ let (_, held') = c.links z (ground arith) w held in (_, held', Alike-refl w)
    ] in
    let sound : Sound u made (xs ++ x ∷ []) wait = record {
      single = record {
        holds = Holds-single u xs (xs ++ x ∷ []) c.levels;
        plain =
            AllAt-append u.tcbs IsPlain x xs b
              (AllAt-Related Alike IsPlain s.tcbs u.tcbs xs alike IsPlain-Alike v.single.plain)
              there (level, ap is_yield is_ready);
      };
      waiting = λ mu made_it.
          let w = v.waiting mu made_it in
          let apart = NotIn-fresh s.tcbs IsPlain x (wait mu) new w.plain in
          Waiting-kept s0 u (s.mutexes mu) (u.mutexes mu) (x ∷ xs) (wait mu) xs (xs ++ x ∷ []) w
            alike (Within-others s.tcbs u.tcbs (x ∷ xs) c.others)
            (Apart-cons x xs (wait mu) w.off apart) (ap (λ ms. (ms mu).lock_wait_queue) c.mutexes)
            (Apart-append x xs (wait mu) w.off apart);
      apart = v.apart;
      current = Current-kept s0 u alike c.current v.current;
      after = subst (λ o. (o ≡ none) ⊎ (o ≡ some 0)) (sym c.after) v.after;
      init = c.init ∙ v.init;
      later = omega (arith, later, c.last);
    } in
    let both : ok (pos 0, tid) u ≡ ok r t = sym c.runs ∙ e in
    let same : u ≡ t = cc both in
    subst (λ w. IsSound w made) same (record { level = xs ++ x ∷ []; wait = wait; sound = sound })

pub my_pthread_create-Sound :
    (s t : Sched) (made : ℕ → Bool) (main node : NewThread) (r : ℤ × ℕ)
    → IsSound s made
    → Fresh s node
    → my_pthread_create main node s ≡ ok r t
    → IsSound t made
my_pthread_create-Sound s t made main node r g fresh e =
    let x = node.tcb_node in
    let v = g.sound in
    let out = NotIn-fresh s.tcbs IsPlain x g.level fresh.new v.single.plain in
    let c =
      my_pthread_create-Creates s (single g.level) main node v.single.holds v.init v.later fresh.pos
        (single-IsFree x g.level out) fresh.granted in
    created-Sound s t made g.level g.wait s.last_tid node fresh.granted (s.last_tid + 1)
      (my_pthread_create main node s) r v fresh.new (omega arith) c e

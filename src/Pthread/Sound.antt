-- ===== src/Pthread/Sound.antt =====
-- What holds of the scheduler and of the mutexes between the calls of the program.
pub mod Fields
pub mod Switches
pub mod Creates
pub mod First
pub mod Inits
pub mod Locks
pub mod Rounds
pub mod Unlocks
use virtual_memory_simulatio.Base.{
  ℕ, ◌<◌, ◌≡◌, ◌≢◌, refl, sym, ◌∙◌, ap, subst, List, [], ◌∷◌, ◌++◌, Option, none, some, arith, true,
  false, Bool, Bool-cases, ◌==◌, ◌⊎◌, inl, inr,
}
use virtual_memory_simulatio.Threads.{with_next, Tcb, Mutex, Sched, null, update}
use virtual_memory_simulatio.Threads.Related.{Related, AllAt, AllAt-Related}
use virtual_memory_simulatio.Queue.Chain.{
  NotIn, Apart, Apart-nil, IsQueue, IsQueue-frame, SameLinks,
}
use virtual_memory_simulatio.Levels.Holds.{SchedHolds, IsFree, update_elim}
use virtual_memory_simulatio.Levels.Move.{Holds-ext, update_twice}
use virtual_memory_simulatio.Switch.{is_yield}
use virtual_memory_simulatio.Switch.Single.{single, IsPlain, Single, SameKind, Within}
use virtual_memory_simulatio.Switch.Turns.{Current}

-- The wait queue of the mutex stands for `ws`, none of which stands in level 0 with `xs`.
pub record Waiting (s : Sched) (m : Mutex) (ws xs : List ℕ) : Type 0 where
  pub queue : IsQueue s.tcbs m.lock_wait_queue ws
  pub plain : AllAt s.tcbs IsPlain ws
  pub off : Apart ws xs

-- All threads that run or wait to run stand in level 0, in the order of `xs`, and those that wait
-- for the mutex `mu`, one of those made, in its queue, in the order of `wait mu`; no thread stands
-- twice.
pub record Sound (s : Sched) (made : ℕ → Bool) (xs : List ℕ) (wait : ℕ → List ℕ) : Type 0 where
  pub single : Single s xs
  pub waiting : (mu : ℕ) → made mu ≡ true → Waiting s (s.mutexes mu) (wait mu) xs
  pub apart : (mu nu : ℕ) → mu ≢ nu → made mu ≡ true → made nu ≡ true → Apart (wait mu) (wait nu)
  pub current : (s.current_tcb ≡ null) ⊎ Current s
  pub after : (s.after_unlock_priority ≡ none) ⊎ (s.after_unlock_priority ≡ some 0)
  pub init : s.scheduler_init ≡ true
  pub later : 0 < s.last_tid

pub record IsSound (s : Sched) (made : ℕ → Bool) : Type 0 where
  pub level : List ℕ
  pub wait : ℕ → List ℕ
  pub sound : Sound s made level wait

-- The same priority, and not newly yielded.
abbrev pub Alike : Tcb → Tcb → Type 0
Alike t u = (u.priority ≡ t.priority) × (is_yield t.state ≡ false → is_yield u.state ≡ false)

pub Alike-refl : (t : Tcb) → Alike t t
Alike-refl t = (refl, λ e. e)

pub Alike-trans : (t u v : Tcb) → Alike t u → Alike u v → Alike t v
Alike-trans t u v (a, b) (a', b') = (a' ∙ a, λ e. b' (b e))

pub IsPlain-Alike : (t u : Tcb) → Alike t u → IsPlain t → IsPlain u
IsPlain-Alike t u (a, b) (p, q) = (a ∙ p, b q)

pub Related-Alike : (m m' : ℕ → Option Tcb) → Related SameKind m m' → Related Alike m m'
Related-Alike m m' r z t e =
    let (u, e', (same_level, same_yield, same_end)) = r z t e in
    (u, e', (same_level.2, λ q. same_yield ∙ q))

-- Blocks of `xs`, none of which is touched, keep their links.
pub SameLinks-Within :
    (m m' : ℕ → Option Tcb) (touched xs : List ℕ)
    → Within touched m m'
    → Apart xs touched
    → SameLinks m m' xs
SameLinks-Within m m' touched [] h d = tt
SameLinks-Within m m' touched (x ∷ xs) h (out, d) =
    (λ t e. h x out t e, SameLinks-Within m m' touched xs h d)

pub Waiting-kept :
    (s t : Sched) (m m' : Mutex) (touched ws xs xs' : List ℕ)
    → Waiting s m ws xs
    → Related Alike s.tcbs t.tcbs
    → Within touched s.tcbs t.tcbs
    → Apart ws touched
    → m'.lock_wait_queue ≡ m.lock_wait_queue
    → Apart ws xs'
    → Waiting t m' ws xs'
Waiting-kept s t m m' touched ws xs xs' w r h d e off = record {
  queue = rw e (
      IsQueue-frame s.tcbs t.tcbs m.lock_wait_queue ws w.queue
        (SameLinks-Within s.tcbs t.tcbs touched ws h d));
  plain = AllAt-Related Alike IsPlain s.tcbs t.tcbs ws r IsPlain-Alike w.plain;
  off = off;
}

pub Current-kept :
    (s t : Sched)
    → Related Alike s.tcbs t.tcbs
    → t.current_tcb ≡ s.current_tcb
    → (s.current_tcb ≡ null) ⊎ Current s
    → (t.current_tcb ≡ null) ⊎ Current t
Current-kept s t r e (inl at) = inl (e ∙ at)
Current-kept s t r e (inr c) =
    let (u, held, (level, active)) = r s.current_tcb c.block c.held in
    inr (record {
      block = u;
      held = ap t.tcbs e ∙ held;
      pos = omega (arith, e, c.pos);
      level = level ∙ c.level;
    })

-- The same link, too.
abbrev pub Fields : Tcb → Tcb → Type 0
Fields t u = (u.next_tcb ≡ t.next_tcb) × Alike t u

-- No call but those on mutexes and `my_pthread_create` changes these.
pub record Unchanged (s t : Sched) : Type 0 where
  pub levels : t.multi_level_priority_queue ≡ s.multi_level_priority_queue
  pub mutexes : t.mutexes ≡ s.mutexes
  pub current : t.current_tcb ≡ s.current_tcb
  pub after : t.after_unlock_priority ≡ s.after_unlock_priority
  pub init : t.scheduler_init ≡ s.scheduler_init
  pub last : t.last_tid ≡ s.last_tid

pub Sound-Fields :
    (s t : Sched) (made : ℕ → Bool) (xs : List ℕ) (wait : ℕ → List ℕ)
    → Sound s made xs wait
    → Related Fields s.tcbs t.tcbs
    → Unchanged s t
    → Sound t made xs wait
Sound-Fields s t made xs wait g r u =
    let alike : Related Alike s.tcbs t.tcbs =
      λ z v e. let (w, e', (next, kind)) = r z v e in (w, e', kind) in
    let within : Within [] s.tcbs t.tcbs =
      λ z o v e. let (w, e', (next, kind)) = r z v e in (w, e', next) in
    record {
      single = record {
        holds = record {
          queues = λ i lt. rw u.levels (
              IsQueue-frame s.tcbs t.tcbs (s.multi_level_priority_queue i) (single xs i)
                (g.single.holds.queues i lt)
                (SameLinks-Within s.tcbs t.tcbs [] (single xs i) within (Apart-nil (single xs i))));
          apart = g.single.holds.apart;
        };
        plain = AllAt-Related Alike IsPlain s.tcbs t.tcbs xs alike IsPlain-Alike g.single.plain;
      };
      waiting = λ mu yes'.
          Waiting-kept s t (s.mutexes mu) (t.mutexes mu) [] (wait mu) xs xs (g.waiting mu yes')
            alike within (Apart-nil (wait mu)) (ap (λ ms. (ms mu).lock_wait_queue) u.mutexes)
            (g.waiting mu yes').off;
      apart = g.apart;
      current = Current-kept s t alike u.current g.current;
      after = subst (λ o. (o ≡ none) ⊎ (o ≡ some 0)) (sym u.after) g.after;
      init = u.init ∙ g.init;
      later = omega (arith, u.last, g.later);
    }

-- Of all blocks but `x` only links change, and `x` becomes `b`.
pub Related-links :
    (m m' : ℕ → Option Tcb) (x n : ℕ) (b : Tcb)
    → ((t : Tcb) → m x ≡ some t → Alike t b)
    → ((y : ℕ) → y ≢ x → (t : Tcb) → m y ≡ some t → (n : ℕ) × (m' y ≡ some (with_next n t)))
    → m' x ≡ some (with_next n b)
    → Related Alike m m'
Related-links m m' x n b kind links placed z t e = elim (Bool-cases (z == x)) [
  | inl hit ↦
      let at : z ≡ x = ground arith in
      (with_next n b, ap m' at ∙ placed, kind t (ap m (sym at) ∙ e))
  | inr miss ↦ let (k, there) = links z (ground arith) t e in (with_next k t, there, Alike-refl t)
]

pub Within-others :
    (m m' : ℕ → Option Tcb) (xs : List ℕ) → ((y : ℕ) → NotIn y xs → m' y ≡ m y) → Within xs m m'
Within-others m m' xs h z o t e = (t, h z o ∙ e, refl)

-- The level 0 of lists is the list of level 0.
pub Holds-single :
    (t : Sched) (xs ys : List ℕ) → SchedHolds t (update (single xs) 0 ys) → SchedHolds t (single ys)
Holds-single t xs ys h =
    Holds-ext t.tcbs t.multi_level_priority_queue _ _ h (update_twice (λ _. []) 0 xs ys)

-- The first waiting thread, or a new one, stands in no level.
pub single-IsFree : (x : ℕ) (xs : List ℕ) → NotIn x xs → IsFree x (single xs)
single-IsFree x xs out i lt = update_elim (λ l. NotIn x l) (λ _. []) 0 xs i (λ _. out) (λ _. tt)

-- ===== src/Threads/Keeps.antt =====
-- Code that leaves a view of the mutexes as it is.
use virtual_memory_simulatio.Base.{
  ℕ, ◌≡◌, refl, sym, ◌∙◌, ap, Bool, true, false, Option, none, some, if◌then◌else◌, ◌==◌, ltb,
}
use virtual_memory_simulatio.Threads.{
  Tcb, Queue, Mutex, Sched, Run, Cmd, Fault, ok, fault, and_then, ◌>>=◌, ◌>>◌, pure, tcb_found,
  tcb_changed, number_levels, null, load_tcb, change_tcb, load_level, store_level,
}

-- `view` of the mutexes is the same after `r` as in `s`, if `r` ends at all.
abbrev pub KeepsAt : {X A : Type 0} → ((ℕ → Mutex) → X) → Sched → Run A → Type 0
KeepsAt {A} view s r = (a : A) (t : Sched) → r ≡ ok a t → view t.mutexes ≡ view s.mutexes

abbrev pub Keeps : {X A : Type 0} → ((ℕ → Mutex) → X) → Cmd A → Type 0
Keeps view c = (s : Sched) → KeepsAt view s (c s)

module _ {X : Type 0} (view : (ℕ → Mutex) → X) where
  pub Keeps-ok :
      {A : Type 0} (s t : Sched) (a : A) → view t.mutexes ≡ view s.mutexes → KeepsAt view s (ok a t)
  Keeps-ok s t a same b u e = let st : t ≡ u = cc e in ap (λ v. view v.mutexes) (sym st) ∙ same

  pub Keeps-fault : {A : Type 0} (s : Sched) (f : Fault) → KeepsAt {A = A} view s (fault f)
  Keeps-fault s f b u e = absurd (cc e)

  pub Keeps-then :
      {A B : Type 0} (s : Sched) (r : Run A) (k : A → Cmd B)
      → KeepsAt view s r
      → ((a : A) → Keeps view (k a))
      → KeepsAt view s (and_then r k)
  Keeps-then s (ok a u) k h g b t e = g a u b t e ∙ h a u refl
  Keeps-then s (fault f) k h g b t e = absurd (cc e)

  pub Keeps-bind :
      {A B : Type 0} (c : Cmd A) (k : A → Cmd B)
      → Keeps view c
      → ((a : A) → Keeps view (k a))
      → Keeps view (c >>= k)
  Keeps-bind c k h g s = Keeps-then s (c s) k (h s) g

  pub Keeps-seq :
      {B : Type 0} (c : Cmd (Unit {0})) (d : Cmd B)
      → Keeps view c
      → Keeps view d
      → Keeps view (c >> d)
  Keeps-seq c d h g s = Keeps-then s (c s) (λ _. d) (h s) (λ _. g)

  pub Keeps-pure : {A : Type 0} (a : A) → Keeps view (pure a)
  Keeps-pure a s = Keeps-ok s s a refl

  pub Keeps-if :
      {A : Type 0} (s : Sched) (b : Bool) (x y : Run A)
      → KeepsAt view s x
      → KeepsAt view s y
      → KeepsAt view s (if b then x else y)
  Keeps-if s true x y h g = h
  Keeps-if s false x y h g = g

  pub Keeps-choice :
      {A : Type 0} (b : Bool) (c d : Cmd A)
      → Keeps view c
      → Keeps view d
      → Keeps view (if b then c else d)
  Keeps-choice true c d h g = h
  Keeps-choice false c d h g = g

  pub load_tcb-Keeps : (p : ℕ) → Keeps view (load_tcb p)
  unfolding load_tcb
  load_tcb-Keeps p s = Keeps-if s (p == null) _ _ (Keeps-fault s _) (found (s.tcbs p))
    where
      found : (o : Option Tcb) → KeepsAt view s (tcb_found o s)
      found (some t) = Keeps-ok s s t refl
      found none = Keeps-fault s _

  pub change_tcb-Keeps : (p : ℕ) (f : Tcb → Tcb) → Keeps view (change_tcb p f)
  unfolding change_tcb
  change_tcb-Keeps p f s = Keeps-if s (p == null) _ _ (Keeps-fault s _) (found (s.tcbs p))
    where
      found : (o : Option Tcb) → KeepsAt view s (tcb_changed o p f s)
      found (some t) = Keeps-ok s _ tt refl
      found none = Keeps-fault s _

  pub load_level-Keeps : (i : ℕ) → Keeps view (load_level i)
  unfolding load_level
  load_level-Keeps i s =
      Keeps-if s (ltb i number_levels) _ _ (Keeps-ok s s _ refl) (Keeps-fault s _)

  pub store_level-Keeps : (i : ℕ) (q : Queue) → Keeps view (store_level i q)
  unfolding store_level
  store_level-Keeps i q s =
      Keeps-if s (ltb i number_levels) _ _ (Keeps-ok s _ tt refl) (Keeps-fault s _)

-- ===== src/Threads/Access.antt =====
-- Access through a pointer to a control block.
use virtual_memory_simulatio.Base.{
  refl, subst, Option, Bool-cases, inl, inr, if◌then◌else◌, ◌==◌, none, ℕ, ◌≡◌, ◌≢◌, ◌<◌, some,
  ==_ne, arith,
}
use virtual_memory_simulatio.Threads.{
  Tcb, Queue, Sched, number_levels, ok, fault, bad_read, null, update, load_tcb, change_tcb,
  load_level, store_level, tcb_changed, tcb_found, and_then, Cmd,
}

module _ {ℓ} {A : Type ℓ} (f : ℕ → A) (p : ℕ) (v : A) where
  pub update_self : update f p v p ≡ v
  update_self = ground arith

  pub update_ne : (q : ℕ) → q ≢ p → update f p v q ≡ f q
  update_ne q ne = ground arith

module _ (s : Sched) (p : ℕ) where
  pub load_tcb-ok : {t : Tcb} → s.tcbs p ≡ some t → 0 < p → load_tcb p s ≡ ok t s
  unfolding load_tcb
  load_tcb-ok e pos = rw (==_ne p 0 (omega arith), e)

  pub change_tcb-ok :
      {t : Tcb} (f : Tcb → Tcb)
      → s.tcbs p ≡ some t
      → 0 < p
      → change_tcb p f s ≡ ok tt (record s { tcbs = update s.tcbs p (some (f t)) })
  unfolding change_tcb
  change_tcb-ok f e pos = rw (==_ne p 0 (omega arith), e)

  pub change_tcb-null : (f : Tcb → Tcb) → p ≡ null → change_tcb p f s ≡ fault bad_read
  unfolding change_tcb
  change_tcb-null f e = rw e

  pub load_tcb-null : p ≡ null → load_tcb p s ≡ fault bad_read
  unfolding load_tcb
  load_tcb-null e = rw e refl

-- A read that does not fault has found its block.
pub load_tcb-found :
    {A : Type 0} (s t : Sched) (p : ℕ) (k : Tcb → Cmd A) (a : A)
    → and_then (load_tcb p s) k ≡ ok a t
    → (v : Tcb) × (s.tcbs p ≡ some v) × (0 < p) × (k v s ≡ ok a t)
unfolding load_tcb
load_tcb-found s t p k a e = elim (Bool-cases (p == null)) [
  | inl at ↦
      let clash : fault bad_read ≡ ok a t =
        subst (λ b. and_then (if b then fault bad_read else tcb_found (s.tcbs p) s) k ≡ ok a t) at
          e in
      absurd (cc clash)
  | inr ne ↦
      let (v, held, run) = found (s.tcbs p) refl (
        subst (λ b. and_then (if b then fault bad_read else tcb_found (s.tcbs p) s) k ≡ ok a t) ne
          e) in
      (v, held, ground arith, run)
]
  where
    found :
        (o : Option Tcb)
        → s.tcbs p ≡ o
        → and_then (tcb_found o s) k ≡ ok a t
        → (v : Tcb) × (s.tcbs p ≡ some v) × (k v s ≡ ok a t)
    found (some v) held run = (v, held, run)
    found none held run = absurd (cc run)

-- A change that does not fault has found its block.
pub change_tcb-found :
    (s t : Sched) (p : ℕ) (f : Tcb → Tcb)
    → change_tcb p f s ≡ ok tt t
    → (v : Tcb) × (s.tcbs p ≡ some v) × (t ≡ record s { tcbs = update s.tcbs p (some (f v)) })
unfolding change_tcb
change_tcb-found s t p f e = elim (Bool-cases (p == null)) [
  | inl at ↦
      let clash : fault bad_read ≡ ok tt t =
        subst (λ b. (if b then fault bad_read else tcb_changed (s.tcbs p) p f s) ≡ ok tt t) at e in
      absurd (cc clash)
  | inr ne ↦
      found (s.tcbs p) refl
        (subst (λ b. (if b then fault bad_read else tcb_changed (s.tcbs p) p f s) ≡ ok tt t) ne e)
]
  where
    found :
        (o : Option Tcb)
        → s.tcbs p ≡ o
        → tcb_changed o p f s ≡ ok tt t
        → (v : Tcb) × (s.tcbs p ≡ some v) × (t ≡ record s { tcbs = update s.tcbs p (some (f v)) })
    found (some v) held run = (v, held, cc run)
    found none held run = absurd (cc run)

pub load_level-ok :
    (s : Sched) (i : ℕ) → i < number_levels → load_level i s ≡ ok (s.multi_level_priority_queue i) s
unfolding load_level
load_level-ok s i h = ground arith

pub store_level-ok :
    (s : Sched) (i : ℕ) (q : Queue)
    → i < number_levels
    → store_level i q s
      ≡ ok tt (record s { multi_level_priority_queue = update s.multi_level_priority_queue i q })
unfolding store_level
store_level-ok s i q h = ground arith

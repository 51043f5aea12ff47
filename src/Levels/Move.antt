-- ===== src/Levels/Move.antt =====
-- Steps that take a block off a level, and steps that leave the levels as they are.
use virtual_memory_simulatio.Base.{
  ℕ, ◌<◌, ◌≡◌, ◌≢◌, refl, sym, subst, List, [], ◌∷◌, Option, some, Bool-cases, inl, inr, ◌==◌,
}
use virtual_memory_simulatio.Threads.{Tcb, Queue, Sched, number_levels, update, with_next}
use virtual_memory_simulatio.Threads.Access.{update_ne}
use virtual_memory_simulatio.Queue.Chain.{
  NotIn, Apart, Apart-nil, Apart-cons, Apart-tail, NotIn-of_Apart, IsQueue, IsQueue-frame,
  SameLinks-others,
}
use virtual_memory_simulatio.Levels.Holds.{
  Lists, Holds, SchedHolds, IsFree, update_elim, Holds-update,
}

-- Levels whose blocks are not touched.
pub Holds-others :
    (m m' : ℕ → Option Tcb) (levels : ℕ → Queue) (ls : Lists) (touched : List ℕ)
    → Holds m levels ls
    → ((i : ℕ) → i < number_levels → Apart (ls i) touched)
    → ((y : ℕ) → NotIn y touched → m' y ≡ m y)
    → Holds m' levels ls
Holds-others m m' levels ls touched h away k = record {
  queues = λ i lt.
      IsQueue-frame m m' (levels i) (ls i) (h.queues i lt)
        (SameLinks-others m m' (ls i) touched (away i lt) k);
  apart = h.apart;
}

pub Holds-ext :
    (m : ℕ → Option Tcb) (levels : ℕ → Queue) (ls ls' : Lists)
    → Holds m levels ls
    → ((i : ℕ) → ls i ≡ ls' i)
    → Holds m levels ls'
Holds-ext m levels ls ls' h e = record {
  queues = λ i lt. subst (λ l. IsQueue m (levels i) l) (e i) (h.queues i lt);
  apart = λ i j hi hj ne.
      subst (λ l. Apart l (ls' j)) (e i) (subst (λ l. Apart (ls i) l) (e j) (h.apart i j hi hj ne));
}

pub update_twice :
    (ls : Lists) (c : ℕ) (xs ys : List ℕ) (i : ℕ)
    → update (update ls c xs) c ys i ≡ update ls c ys i
update_twice ls c xs ys i = elim (Bool-cases (i == c)) [ inl e ↦ rw e refl | inr e ↦ rw e refl ]

pub IsFree-away :
    (p : ℕ) (ls : Lists) (i : ℕ) → i < number_levels → IsFree p ls → Apart (ls i) (p ∷ [])
IsFree-away p ls i lt free = Apart-cons p [] (ls i) (Apart-nil (ls i)) (free i lt)

-- What is left when the first block of level `c` has been taken off.
module _ (s : Sched) (ls : Lists) (c x : ℕ) (xs : List ℕ) (h : SchedHolds s ls)
    (lt : c < number_levels) (e : ls c ≡ x ∷ xs) where
  pub level-IsQueue : IsQueue s.tcbs (s.multi_level_priority_queue c) (x ∷ xs)
  level-IsQueue = subst (λ l. IsQueue s.tcbs (s.multi_level_priority_queue c) l) e (h.queues c lt)

  pub head_away : (i : ℕ) → i < number_levels → i ≢ c → Apart (ls i) (x ∷ xs)
  head_away i hi ne = subst (λ l. Apart (ls i) l) e (h.apart i c hi lt ne)

  away_head : (i : ℕ) → i < number_levels → i ≢ c → Apart (x ∷ xs) (ls i)
  away_head i hi ne = subst (λ l. Apart l (ls i)) e (h.apart c i lt hi (λ q. ne (sym q)))

  pub take-IsFree : NotIn x xs → IsFree x (update ls c xs)
  take-IsFree out i hi =
      update_elim (λ l. NotIn x l) ls c xs i (λ q. out) (λ ne. (away_head i hi ne).0)

  pub take-Holds :
      (t : Tcb) (q : Queue)
      → IsQueue (update s.tcbs x (some (with_next 0 t))) q xs
      → Holds
          (update s.tcbs x (some (with_next 0 t)))
          (update s.multi_level_priority_queue c q)
          (update ls c xs)
  take-Holds t q is =
      Holds-update s.tcbs (update s.tcbs x (some (with_next 0 t))) s.multi_level_priority_queue ls c
        q xs (x ∷ []) h is (λ y o. update_ne s.tcbs x _ y o.0)
        (λ i hi ne.
          Apart-cons x [] (ls i) (Apart-nil (ls i))
            (NotIn-of_Apart x xs (ls i) (head_away i hi ne)))
        (λ i hi ne. (Apart-tail x xs (ls i) (head_away i hi ne), (away_head i hi ne).1))

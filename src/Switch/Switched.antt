-- ===== src/Switch/Switched.antt =====
-- What any run of the two helpers leaves, when all threads stand in level 0 before.
use virtual_memory_simulatio.Base.{
  ℕ, zero, suc, ◌≡◌, ◌≢◌, refl, sym, ◌∙◌, ap, subst, List, [], ◌∷◌, ◌++◌, Option, some, arith,
  Bool-cases, inl, inr, ◌⊎◌,
}
use virtual_memory_simulatio.Threads.{
  Timeval, Sched, Cmd, ok, fault, bad_read, null, change_tcb, update,
}
use virtual_memory_simulatio.Threads.Access.{
  load_tcb-ok, load_tcb-null, load_level-ok, store_level-ok,
}
use virtual_memory_simulatio.Threads.Related.{Related, Related-trans}
use virtual_memory_simulatio.Queue.Chain.{NotIn}
use virtual_memory_simulatio.Queue.Laws.{dequeue-nil}
use virtual_memory_simulatio.Switch.{is_terminated, install, requeue, my_pthread_yield_helper}
use virtual_memory_simulatio.Switch.Single.{
  Single, SameKind, SameKind-trans, Within, Within-trans, NotIn-turned, Beside, Beside-trans,
}
use virtual_memory_simulatio.Switch.Turn.{my_pthread_yield_helper-Turn}
use virtual_memory_simulatio.Switch.Install.{Installs, install-Installs}
use virtual_memory_simulatio.Switch.Turns.{Current, head-Current, install-skips}

pub record Switched (s t : Sched) (xs : List ℕ) : Type 0 where
  pub level : List ℕ
  pub single : Single t level
  pub members : (z : ℕ) → NotIn z xs → NotIn z level
  pub kinds : Related SameKind s.tcbs t.tcbs
  pub within : Within xs s.tcbs t.tcbs
  pub beside : Beside s t
  pub current : (t.current_tcb ≡ null) ⊎ Current t

pub Switched-trans :
    (s t u : Sched) (xs ys : List ℕ)
    → ((z : ℕ) → NotIn z xs → NotIn z ys)
    → Related SameKind s.tcbs t.tcbs
    → Within xs s.tcbs t.tcbs
    → Beside s t
    → Switched t u ys
    → Switched s u xs
Switched-trans s t u xs ys out kinds within beside w = record {
  level = w.level;
  single = w.single;
  members = λ z o. w.members z (out z o);
  kinds =
      Related-trans SameKind SameKind SameKind s.tcbs t.tcbs u.tcbs SameKind-trans kinds w.kinds;
  within = Within-trans xs ys s.tcbs t.tcbs u.tcbs out within w.within;
  beside = Beside-trans s t u beside w.beside;
  current = w.current;
}

-- The run of the chosen thread.
pub Installs-Switched :
    (s t : Sched) (y : ℕ) (ys : List ℕ) (c : Cmd (Option ℕ)) (r : Option ℕ)
    → Installs s y (y ∷ ys) (c s)
    → c s ≡ ok r t
    → Switched s t (y ∷ ys)
Installs-Switched s t y ys c r i e =
    let f = i.starts.final in
    let both : ok (some y) f ≡ ok r t = sym i.starts.runs ∙ e in
    let same : f ≡ t = cc both in
    subst (λ u. Switched s u (y ∷ ys)) same
      (record {
        level = y ∷ ys;
        single = i.starts.single;
        members = λ z o. o;
        kinds = i.starts.kinds;
        within = i.within;
        beside = i.beside;
        current = inr (head-Current f y ys i.starts.single i.starts.current);
      })

helper-empty :
    (s t : Sched) (fuel : ℕ) (now : Timeval) (r : Option ℕ) (c : Current s)
    → Single s []
    → my_pthread_yield_helper fuel now s ≢ ok r t
unfolding my_pthread_yield_helper requeue
helper-empty s t zero now r c g e = absurd (cc e)
helper-empty s t (suc fuel) now r c g e =
    let is = g.holds.queues 0 (omega arith) in
    let q = s.multi_level_priority_queue 0 in
    let s2 : Sched = record s {
      multi_level_priority_queue = update s.multi_level_priority_queue 0 q;
    } in
    let stops : my_pthread_yield_helper (suc fuel) now s ≡ fault bad_read =
      rw
        (
          load_tcb-ok s s.current_tcb c.held c.pos,
          c.level,
          load_level-ok s 0 (omega arith),
          dequeue-nil s q is,
          store_level-ok s 0 q (omega arith),
          load_tcb-null s2 null refl,
        )
        refl in
    absurd (cc (e, stops))

-- Every run that ends, whatever its fuel.
pub my_pthread_yield_helper-Switched :
    (fuel : ℕ) (now : Timeval) (s t : Sched) (r : Option ℕ) (xs : List ℕ)
    → Single s xs
    → Current s
    → my_pthread_yield_helper fuel now s ≡ ok r t
    → Switched s t xs
unfolding my_pthread_yield_helper
my_pthread_yield_helper-Switched zero now s t r xs g c e = absurd (cc e)
my_pthread_yield_helper-Switched (suc fuel) now s t r [] g c e =
    absurd (helper-empty s t (suc fuel) now r c g e)
my_pthread_yield_helper-Switched (suc fuel) now s t r (x ∷ xs) g c e =
    let (y, ys, turned) = next_of x xs in
    let a = my_pthread_yield_helper-Turn s x y xs ys c.block g c.held c.pos c.level turned in
    let c' = head-Current a.final y ys a.single a.current in
    let (tx, ex, plain_x) = g.plain.0 in
    let (ux, ex', kind_x) = a.kinds x tx ex in
    let (v, ev, plain) = a.single.plain.0 in
    let stamp = change_tcb x (λ w. record w { last_yield_time = now }) in
    let again = my_pthread_yield_helper fuel now in
    let run : install again stamp now a.final ≡ ok r t = sym (a.runs fuel now) ∙ e in
    Switched-trans s a.final t (x ∷ xs) (y ∷ ys) (NotIn-turned x y xs ys turned) a.kinds a.within
      a.beside
      (elim (Bool-cases (is_terminated v.state)) [
        | inl over ↦ my_pthread_yield_helper-Switched fuel now a.final t r (y ∷ ys) a.single c' (
            sym (
              install-skips a.final again stamp now v (ap a.final.tcbs a.current ∙ ev) c'.pos plain
                over)
            ∙ run)
        | inr live ↦
            Installs-Switched a.final t y ys (install again stamp now) r
              (install-Installs a.final again now x y (y ∷ ys) v ux a.single a.current
                (a.single.holds.queues 0 (omega arith)).chain.1 ev plain live
                (g.holds.queues 0 (omega arith)).chain.1 ex' a.few)
              run
      ])
  where
    next_of : (x : ℕ) (xs : List ℕ) → (y : ℕ) × (ys : List ℕ) × (xs ++ x ∷ [] ≡ y ∷ ys)
    next_of x [] = (x, [], refl)
    next_of x (y ∷ ys) = (y, ys ++ x ∷ [], refl)

-- ===== src/Queue/Laws.antt =====
-- `enqueue` and `dequeue` on a queue that stands for a list.
use virtual_memory_simulatio.Base.{
  ℕ, ◌+◌, ◌-◌, ◌≡◌, refl, ◌≢◌, ◌<◌, Option, some, List, [], ◌∷◌, ◌++◌, arith, sym, ◌∙◌, ==_ne,
  length-append, Bool-cases, inl, inr, subst, ◌==◌, if◌then◌else◌,
}
use virtual_memory_simulatio.Threads.{
  Tcb, Queue, Sched, Run, Cmd, ok, fault, bad_read, pure, and_then, ◌>>◌, change_tcb, null, update,
  with_next,
}
use virtual_memory_simulatio.Threads.Access.{
  update_self, update_ne, change_tcb-ok, change_tcb-null, load_tcb-ok,
}
use virtual_memory_simulatio.Queue.{enqueue, dequeue}
use virtual_memory_simulatio.Queue.Chain.{
  NotIn, last_of, IsQueue, Chain-update, Chain-last, Chain-snoc, Distinct-snoc, last_of-snoc,
  NotIn-last, LinksOnly, update-LinksOnly, LinksOnly-trans,
}

-- The run returns a queue for `xs`, and changes nothing but the links of blocks among `touched`.
pub record Yields (s : Sched) (touched : List ℕ) (r : Run Queue) (xs : List ℕ) : Type 0 where
  pub tcbs : ℕ → Option Tcb
  pub queue : Queue
  pub runs : r ≡ ok queue (record s { tcbs = tcbs })
  pub is_queue : IsQueue tcbs queue xs
  pub others : (y : ℕ) → NotIn y touched → tcbs y ≡ s.tcbs y
  pub links : LinksOnly s.tcbs tcbs

enqueue-cons :
    (s : Sched) (q : Queue) (p x : ℕ) (xs : List ℕ) (tp : Tcb)
    → IsQueue s.tcbs q (x ∷ xs)
    → s.tcbs p ≡ some tp
    → 0 < p
    → NotIn p (x ∷ xs)
    → Yields s (p ∷ x ∷ xs) (enqueue q p s) (x ∷ xs ++ p ∷ [])
unfolding enqueue
enqueue-cons s q p x xs tp is e pos out =
    let (lpos, (tl, el)) = Chain-last s.tcbs q.head x xs is.chain in
    let ne : p ≢ last_of x xs = NotIn-last p x xs out in
    let m1 = update s.tcbs (last_of x xs) (some (with_next p tl)) in
    let s1 : Sched = record s { tcbs = m1 } in
    record {
      tcbs = update m1 p (some (with_next null tp));
      queue = record { head = q.head; tail = p; size = q.size + 1 };
      runs = rw (
        ==_ne q.size 0 (omega (arith, is.size)),
        is.tail,
        change_tcb-ok s (last_of x xs) (with_next p) el lpos,
        change_tcb-ok s1 p (with_next null) (update_ne s.tcbs _ _ p ne ∙ e) pos,
      );
      is_queue = record {
        chain = Chain-snoc s.tcbs q.head x p xs tl tp is.chain is.distinct out pos el;
        distinct = Distinct-snoc (x ∷ xs) p is.distinct out;
        size = omega (arith, is.size, length-append xs (p ∷ []));
        tail = sym (last_of-snoc x xs p);
      };
      others = λ y o. update_ne m1 p _ y o.0 ∙ update_ne s.tcbs _ _ y (NotIn-last y x xs o.1);
      links =
          LinksOnly-trans s.tcbs m1 (update m1 p (some (with_next null tp)))
            (update-LinksOnly s.tcbs (last_of x xs) p tl el)
            (update-LinksOnly m1 p null tp (update_ne s.tcbs _ _ p ne ∙ e));
    }

enqueue-nil :
    (s : Sched) (q : Queue) (p : ℕ) (tp : Tcb)
    → IsQueue s.tcbs q []
    → s.tcbs p ≡ some tp
    → 0 < p
    → Yields s (p ∷ []) (enqueue q p s) (p ∷ [])
unfolding enqueue
enqueue-nil s q p tp is e pos = record {
  tcbs = update s.tcbs p (some (with_next null tp));
  queue = record { head = p; tail = p; size = q.size + 1 };
  runs = simp (is.size, change_tcb-ok s p (with_next null) e pos);
  is_queue = record {
    chain = (refl, pos, with_next null tp, update_self s.tcbs p _, refl);
    distinct = (tt, tt);
    size = omega (arith, is.size);
    tail = refl;
  };
  others = λ y o. update_ne s.tcbs p _ y o.0;
  links = update-LinksOnly s.tcbs p null tp e;
}

-- enqueue of a control block that is not in the queue appends it to the list that the queue stands
-- for, links, tail and size included, if the block is there and not NULL, and changes no more than
-- links, of that block and of those of the queue.
pub enqueue-IsQueue :
    (s : Sched) (q : Queue) (p : ℕ) (xs : List ℕ) (tp : Tcb)
    → IsQueue s.tcbs q xs
    → s.tcbs p ≡ some tp
    → 0 < p
    → NotIn p xs
    → Yields s (p ∷ xs) (enqueue q p s) (xs ++ p ∷ [])
enqueue-IsQueue s q p [] tp is e pos out = enqueue-nil s q p tp is e pos
enqueue-IsQueue s q p (x ∷ xs) tp is e pos out = enqueue-cons s q p x xs tp is e pos out

-- The run takes `x` off a queue and leaves a queue for `xs`.
pub record Takes (s : Sched) (x : ℕ) (r : Run (ℕ × Queue)) (xs : List ℕ) : Type 0 where
  pub tcb : Tcb
  pub queue : Queue
  pub held : s.tcbs x ≡ some tcb
  pub pos : 0 < x
  pub runs : r ≡ ok (x, queue) (record s { tcbs = update s.tcbs x (some (with_next null tcb)) })
  pub is_queue : IsQueue (update s.tcbs x (some (with_next null tcb))) queue xs
  pub fresh : NotIn x xs

-- dequeue takes the first block off the list that a non-empty queue stands for, sets its link to
-- NULL, leaves a queue for the rest of the list, and changes no other block.
pub dequeue-IsQueue :
    (s : Sched) (q : Queue) (x : ℕ) (xs : List ℕ)
    → IsQueue s.tcbs q (x ∷ xs)
    → Takes s x (dequeue q s) xs
unfolding dequeue
dequeue-IsQueue s q x [] is =
    let (e, pos, t, held, h) = is.chain in
    record {
      tcb = t;
      queue = record { head = null; tail = null; size = 0 };
      held = held;
      pos = pos;
      runs = simp (is.size, e, change_tcb-ok s x (with_next null) held pos);
      is_queue = record { chain = refl; distinct = tt; size = refl; tail = refl };
      fresh = tt;
    }
dequeue-IsQueue s q x (y ∷ ys) is =
    let (e, pos, t, held, h) = is.chain in
    record {
      tcb = t;
      queue = record { head = t.next_tcb; tail = q.tail; size = q.size - 1 };
      held = held;
      pos = pos;
      runs = simp (
        ==_ne q.size 0 (omega (arith, is.size)),
        ==_ne q.size 1 (omega (arith, is.size)),
        e,
        load_tcb-ok s x held pos,
        change_tcb-ok s x (with_next null) held pos,
      );
      is_queue = record {
        chain = Chain-update s.tcbs t.next_tcb x _ (y ∷ ys) h is.distinct.0;
        distinct = is.distinct.1;
        size = omega (arith, is.size);
        tail = is.tail;
      };
      fresh = is.distinct.0;
    }

-- On an empty queue it returns NULL and changes nothing.
pub dequeue-nil : (s : Sched) (q : Queue) → IsQueue s.tcbs q [] → dequeue q s ≡ ok (null, q) s
unfolding dequeue
dequeue-nil s q is = rw is.size

-- NULL cannot be enqueued.
pub enqueue-null : (s t : Sched) (q p : Queue) → enqueue q null s ≢ ok p t
unfolding enqueue
enqueue-null s t q p e = elim (Bool-cases (q.size == 0)) [
  | inl none_there ↦
      null_first s (λ _. pure (record { head = null; tail = null; size = q.size + 1 }))
        (subst (λ b. (if b then first else behind) s ≡ ok p t) none_there e)
  | inr some_there ↦
      null_second (change_tcb q.tail (with_next null) s)
        (subst (λ b. (if b then first else behind) s ≡ ok p t) some_there e)
]
  where
    first : Cmd Queue
    first =
        change_tcb null (with_next null)
        >> pure (record { head = null; tail = null; size = q.size + 1 })

    behind : Cmd Queue
    behind =
        change_tcb q.tail (with_next null)
        >> (change_tcb null (with_next null)
            >> pure (record { head = q.head; tail = null; size = q.size + 1 }))

    null_first :
        (u : Sched) (k : Unit {0} → Cmd Queue)
        → and_then (change_tcb null (with_next null) u) k ≢ ok p t
    null_first u k run =
        let stops = change_tcb-null u null (with_next null) refl in
        let clash : fault bad_read ≡ ok p t = subst (λ r. and_then r k ≡ ok p t) stops run in
        absurd (cc clash)

    null_second :
        (r : Run (Unit {0}))
        → and_then r (λ _.
          change_tcb null (with_next null)
          >> pure (record { head = q.head; tail = null; size = q.size + 1 }))
          ≢ ok p t
    null_second (ok a u) run =
        null_first u (λ _. pure (record { head = q.head; tail = null; size = q.size + 1 })) run
    null_second (fault f) run = absurd (cc run)

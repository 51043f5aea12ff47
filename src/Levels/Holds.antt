-- ===== src/Levels/Holds.antt =====
-- The multi-level priority queue as one list of control blocks for each level.
use virtual_memory_simulatio.Base.{
  ℕ, ◌≡◌, ◌≢◌, ◌<◌, Option, some, List, [], ◌∷◌, ◌++◌, ◌==◌, inl, inr, Bool-cases, arith, sym, ◌∙◌,
  pos, lt→leb,
}
use virtual_memory_simulatio.Threads.{Tcb, Queue, Sched, Run, ok, number_levels, update, with_next}
use virtual_memory_simulatio.Threads.Access.{
  update_self, update_ne, change_tcb-ok, load_level-ok, store_level-ok,
}
use virtual_memory_simulatio.Queue.Chain.{
  Apart-nil, NotIn, Apart, IsQueue, IsQueue-frame, SameLinks-others, Apart-cons, Apart-append,
}
use virtual_memory_simulatio.Queue.Laws.{enqueue-IsQueue}
use virtual_memory_simulatio.Levels.{schedule_thread}

abbrev pub Lists : Type 0
Lists = ℕ → List ℕ

-- The queue of level `i` stands for the list `ls i`, and no block stands in two of them.
pub record Holds (tcbs : ℕ → Option Tcb) (levels : ℕ → Queue) (ls : Lists) : Type 0 where
  pub queues : (i : ℕ) → i < number_levels → IsQueue tcbs (levels i) (ls i)
  pub apart : (i j : ℕ) → i < number_levels → j < number_levels → i ≢ j → Apart (ls i) (ls j)

abbrev pub SchedHolds : Sched → Lists → Type 0
SchedHolds s ls = Holds s.tcbs s.multi_level_priority_queue ls

-- A block that stands in no level.
abbrev pub IsFree : ℕ → Lists → Type 0
IsFree p ls = (i : ℕ) → i < number_levels → NotIn p (ls i)

pub update_elim {ℓ κ} :
    {A : Type ℓ} (P : A → Type κ) (f : ℕ → A) (p : ℕ) (v : A) (q : ℕ)
    → (q ≡ p → P v)
    → (q ≢ p → P (f q))
    → P (update f p v q)
update_elim P f p v q hit miss = elim (Bool-cases (q == p)) [
  | inl e ↦ rw e (hit (ground arith))
  | inr e ↦ rw e (miss (ground arith))
]

pub update_elim₂ {ℓ κ ι} :
    {A : Type ℓ} {B : Type κ} (P : A → B → Type ι) (f : ℕ → A) (g : ℕ → B) (p : ℕ) (v : A) (w : B)
    (q : ℕ)
    → (q ≡ p → P v w)
    → (q ≢ p → P (f q) (g q))
    → P (update f p v q) (update g p w q)
update_elim₂ P f g p v w q hit miss = elim (Bool-cases (q == p)) [
  | inl e ↦ rw e (hit (ground arith))
  | inr e ↦ rw e (miss (ground arith))
]

-- One level's queue is exchanged for one of another list, by changes to blocks of no other level.
pub Holds-update :
    (tcbs tcbs' : ℕ → Option Tcb) (levels : ℕ → Queue) (ls : Lists) (c : ℕ) (q : Queue)
    (xs touched : List ℕ)
    → Holds tcbs levels ls
    → IsQueue tcbs' q xs
    → ((y : ℕ) → NotIn y touched → tcbs' y ≡ tcbs y)
    → ((i : ℕ) → i < number_levels → i ≢ c → Apart (ls i) touched)
    → ((i : ℕ) → i < number_levels → i ≢ c → Apart (ls i) xs × Apart xs (ls i))
    → Holds tcbs' (update levels c q) (update ls c xs)
Holds-update tcbs tcbs' levels ls c q xs touched h is others away apart = record {
  queues = λ i hi.
      update_elim₂ (IsQueue tcbs') levels ls c q xs i (λ e. is)
        (λ ne.
          IsQueue-frame tcbs tcbs' (levels i) (ls i) (h.queues i hi)
            (SameLinks-others tcbs tcbs' (ls i) touched (away i hi ne) others));
  apart = λ i j hi hj ne.
      update_elim (λ l. Apart l (update ls c xs j)) ls c xs i
        (λ ei.
          update_elim (λ l. Apart xs l) ls c xs j (λ ej. absurd (ne (ei ∙ sym ej)))
            (λ nj. (apart j hj nj).1))
        (λ ni.
          update_elim (λ l. Apart (ls i) l) ls c xs j (λ ej. (apart i hi ni).0)
            (λ nj. h.apart i j hi hj ne));
}

-- The run ends with `tcbs` and `levels` that hold `ls`, and changes nothing else of the state, no
-- control block but those among `touched`, and of these only the links, but that `moved`, its link
-- apart, has become `became`.
pub record Reaches {A : Type 0} (s : Sched) (r : Run A) (a : A) (ls : Lists) (moved : ℕ)
    (became : Tcb) (touched : List ℕ) : Type 0 where
  pub tcbs : ℕ → Option Tcb
  pub levels : ℕ → Queue
  pub runs : r ≡ ok a (record s { tcbs = tcbs; multi_level_priority_queue = levels })
  pub holds : Holds tcbs levels ls
  pub others : (y : ℕ) → NotIn y touched → tcbs y ≡ s.tcbs y
  pub links :
      (y : ℕ)
      → y ≢ moved
      → (t : Tcb) → s.tcbs y ≡ some t
      → (n : ℕ) × (tcbs y ≡ some (with_next n t))
  pub placed : (n : ℕ) × (tcbs moved ≡ some (with_next n became))

pub cons-Apart : (x : ℕ) (xs ys : List ℕ) → NotIn x ys → Apart xs ys → Apart (xs ++ x ∷ []) ys
cons-Apart x [] ys out d = (out, tt)
cons-Apart x (y ∷ xs) ys out d = (d.0, cons-Apart x xs ys out d.1)

-- schedule_thread, on levels that stand for lists no two of which share a block, appends a block
-- that stands in no level to the list of the given level, returns 0, gives the block the priority
-- of the level and leaves its state as it was, keeps the lists of the other levels, and changes
-- nothing else of the scheduler but that level, the block, and links of the blocks in its list.
-- Conditions: the block is there and not NULL, and the level is one of the three.
pub schedule_thread-Holds :
    (s : Sched) (ls : Lists) (p priority : ℕ) (t : Tcb)
    → SchedHolds s ls
    → s.tcbs p ≡ some t
    → 0 < p
    → priority < number_levels
    → IsFree p ls
    → Reaches s
        (schedule_thread p priority s)
        (pos 0)
        (update ls priority (ls priority ++ p ∷ []))
        p
        (record t { priority = priority })
        (p ∷ ls priority)
unfolding schedule_thread
schedule_thread-Holds s ls p c t h e pp lt free =
    let m1 = update s.tcbs p (some (record t { priority = c })) in
    let s1 : Sched = record s { tcbs = m1 } in
    let q = s.multi_level_priority_queue c in
    let untouched : (y : ℕ) → NotIn y (p ∷ []) → m1 y ≡ s.tcbs y =
      λ y o. update_ne s.tcbs p _ y o.0 in
    let is : IsQueue m1 q (ls c) = IsQueue-frame s.tcbs m1 q (ls c) (h.queues c lt) (
      SameLinks-others s.tcbs m1 (ls c) (p ∷ [])
        (Apart-cons p [] (ls c) (Apart-nil (ls c)) (free c lt)) untouched) in
    let y =
      enqueue-IsQueue s1 q p (ls c) (record t { priority = c }) is (update_self s.tcbs p _) pp
        (free c lt) in
    let s2 : Sched = record s { tcbs = y.tcbs } in
    record {
      tcbs = y.tcbs;
      levels = update s.multi_level_priority_queue c y.queue;
      runs = rw (
        lt→leb number_levels c lt,
        change_tcb-ok s p (λ u. record u { priority = c }) e pp,
        load_level-ok s1 c lt,
        y.runs,
        store_level-ok s2 c y.queue lt,
      );
      holds =
          Holds-update s.tcbs y.tcbs s.multi_level_priority_queue ls c y.queue (ls c ++ p ∷ [])
            (p ∷ ls c) h y.is_queue (λ z o. y.others z o ∙ update_ne s.tcbs p _ z o.0)
            (λ i hi ne. Apart-cons p (ls c) (ls i) (h.apart i c hi lt ne) (free i hi))
            (λ i hi ne. (
              Apart-append p (ls c) (ls i) (h.apart i c hi lt ne) (free i hi),
              cons-Apart p (ls c) (ls i) (free i hi) (h.apart c i lt hi (λ e. ne (sym e))),
            ));
      others = λ z o. y.others z o ∙ update_ne s.tcbs p _ z o.0;
      links = λ z ne u held. y.links z u (update_ne s.tcbs p _ z ne ∙ held);
      placed = y.links p (record t { priority = c }) (update_self s.tcbs p _);
    }

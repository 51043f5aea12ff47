-- ===== src/Switch/Single.antt =====
-- The scheduler as the program keeps it: all threads stand in level 0.
use virtual_memory_simulatio.Base.{
  ℕ, suc, ◌++◌, some, subst, ◌<◌, ◌≡◌, ◌∙◌, List, [], ◌∷◌, Option, arith, true, false, leb, ltb,
  if◌then◌else◌, Bool-cases, inl, inr, ==_ne,
}
use virtual_memory_simulatio.Threads.{Tcb, Queue, Sched, ok, null, update}
use virtual_memory_simulatio.Threads.Access.{load_level-ok}
use virtual_memory_simulatio.Threads.Related.{Related, AllAt}
use virtual_memory_simulatio.Queue.{peek}
use virtual_memory_simulatio.Queue.Chain.{NotIn, NotIn-append, IsQueue-frame, SameLinks}
use virtual_memory_simulatio.Levels.Holds.{Lists, SchedHolds, Holds}
use virtual_memory_simulatio.Switch.{is_terminated, is_yield, any_head, next_head, choose_current}

-- The threads of `xs` in level 0, and none in the others.
abbrev pub single : List ℕ → Lists
single xs = update (λ _. []) 0 xs

-- A thread of level 0 that has not yielded. No code sets the state YIELD.
abbrev pub IsPlain : Tcb → Type 0
IsPlain t = (t.priority ≡ 0) × (is_yield t.state ≡ false)

pub record Single (s : Sched) (xs : List ℕ) : Type 0 where
  pub holds : SchedHolds s (single xs)
  pub plain : AllAt s.tcbs IsPlain xs

-- The same tid, place for the return value, and priority.
abbrev pub SameOwn : Tcb → Tcb → Type 0
SameOwn t u = (u.tid ≡ t.tid) × (u.return_value ≡ t.return_value) × (u.priority ≡ t.priority)

SameOwn-trans : (t u v : Tcb) → SameOwn t u → SameOwn u v → SameOwn t v
SameOwn-trans t u v (a, b, c) (a', b', c') = (a' ∙ a, b' ∙ b, c' ∙ c)

-- All of these the same, both or none yielded, and both or none terminated.
abbrev pub SameKind : Tcb → Tcb → Type 0
SameKind t u =
    SameOwn t u
    × (is_yield u.state ≡ is_yield t.state)
    × (is_terminated u.state ≡ is_terminated t.state)

pub SameKind-trans : (t u v : Tcb) → SameKind t u → SameKind u v → SameKind t v
SameKind-trans t u v (a, b, c) (a', b', c') = (SameOwn-trans t u v a a', b' ∙ b, c' ∙ c)

pub IsPlain-SameKind : (t u : Tcb) → SameKind t u → IsPlain t → IsPlain u
IsPlain-SameKind t u (a, b, c) (p, q) = (a.2 ∙ p, b ∙ q)

abbrev pub rounds_left : ℕ → ℕ → ℕ
rounds_left size has_run = if leb size has_run then 0 else has_run

-- With all threads in level 0, the choice falls on the first of them.
pub choose_current-single :
    (s : Sched) (y : ℕ) (ys : List ℕ)
    → SchedHolds s (single (y ∷ ys))
    → choose_current 0 s
      ≡ ok true (record s {
        current_tcb = y;
        has_run = rounds_left (s.multi_level_priority_queue 0).size s.has_run;
      })
unfolding choose_current any_head next_head peek
choose_current-single s y ys h =
    let q0 = h.queues 0 (omega arith) in
    let q1 = h.queues 1 (omega arith) in
    let q2 = h.queues 2 (omega arith) in
    let some_size : ltb 0 (s.multi_level_priority_queue 0).size ≡ true =
      let n = q0.size in ground arith in
    elim (Bool-cases (leb (s.multi_level_priority_queue 0).size s.has_run)) [
      | inl over ↦
          let s0 : Sched = record s { has_run = 0 } in
          let s1 : Sched = record s0 { current_tcb = null } in
          simp (
            load_level-ok s 0 (omega arith),
            over,
            load_level-ok s0 1 (omega arith),
            q1.chain,
            load_level-ok s1 2 (omega arith),
            q2.chain,
            load_level-ok s1 0 (omega arith),
            some_size,
            q0.chain.0,
            ==_ne y 0 (omega (arith, q0.chain.1)),
          )
      | inr few ↦ simp (load_level-ok s 0 (omega arith), few, q0.chain.0)
    ]

-- Of the same kind, and with the same link.
abbrev pub SameFrame : Tcb → Tcb → Type 0
SameFrame t u = (u.next_tcb ≡ t.next_tcb) × SameKind t u

pub SameFrame-trans : (t u v : Tcb) → SameFrame t u → SameFrame u v → SameFrame t v
SameFrame-trans t u v (a, b) (a', b') = (a' ∙ a, SameKind-trans t u v b b')

SameLinks-Related :
    (m m' : ℕ → Option Tcb) (xs : List ℕ) → Related SameFrame m m' → SameLinks m m' xs
SameLinks-Related m m' [] h = tt
SameLinks-Related m m' (x ∷ xs) h =
    (λ t e. let (u, e', (next, _)) = h x t e in (u, e', next), SameLinks-Related m m' xs h)

-- Changes that keep the kinds and the links keep the levels.
pub Holds-Related :
    (m m' : ℕ → Option Tcb) (levels : ℕ → Queue) (ls : Lists)
    → Holds m levels ls
    → Related SameFrame m m'
    → Holds m' levels ls
Holds-Related m m' levels ls h r = record {
  queues = λ i lt.
      IsQueue-frame m m' (levels i) (ls i) (h.queues i lt) (SameLinks-Related m m' (ls i) r);
  apart = h.apart;
}

pub Related-kinds : (m m' : ℕ → Option Tcb) → Related SameFrame m m' → Related SameKind m m'
Related-kinds m m' h z t e = let (u, e', (next, kind)) = h z t e in (u, e', kind)

-- The blocks outside of `xs` keep their links.
abbrev pub Within : List ℕ → (ℕ → Option Tcb) → (ℕ → Option Tcb) → Type 0
Within xs m m' =
    (z : ℕ)
    → NotIn z xs
    → (t : Tcb) → m z ≡ some t
    → (u : Tcb) × (m' z ≡ some u) × (u.next_tcb ≡ t.next_tcb)

pub Within-trans :
    (xs ys : List ℕ) (m m' m'' : ℕ → Option Tcb)
    → ((z : ℕ) → NotIn z xs → NotIn z ys)
    → Within xs m m'
    → Within ys m' m''
    → Within xs m m''
Within-trans xs ys m m' m'' out h k z o t e =
    let (u, e', next) = h z o t e in
    let (v, e'', next') = k z (out z o) u e' in (v, e'', next' ∙ next)

pub Within-frame : (xs : List ℕ) (m m' : ℕ → Option Tcb) → Related SameFrame m m' → Within xs m m'
Within-frame xs m m' r z o t e = let (u, e', (next, _)) = r z t e in (u, e', next)

pub NotIn-turned :
    (x y : ℕ) (xs ys : List ℕ)
    → xs ++ x ∷ [] ≡ y ∷ ys
    → (z : ℕ) → NotIn z (x ∷ xs)
    → NotIn z (y ∷ ys)
NotIn-turned x y xs ys turned z (ne, out) =
    subst (λ l. NotIn z l) turned (NotIn-append z xs x out ne)

-- What a switch leaves as it is.
abbrev pub Beside : Sched → Sched → Type 0
Beside s t =
    (t.mutexes ≡ s.mutexes)
    × (t.after_unlock_priority ≡ s.after_unlock_priority)
    × (t.scheduler_init ≡ s.scheduler_init)
    × (t.last_tid ≡ s.last_tid)

pub Beside-trans : (s t u : Sched) → Beside s t → Beside t u → Beside s u
Beside-trans s t u (a, b, c, d) (a', b', c', d') = (a' ∙ a, b' ∙ b, c' ∙ c, d' ∙ d)

pub rounds_left-few : (size has_run n : ℕ) → size ≡ suc n → rounds_left size has_run < suc n
rounds_left-few size has_run n e = elim (Bool-cases (leb size has_run)) [
  | inl over ↦ rw over (omega arith)
  | inr few ↦ rw few (ground (arith, few, e))
]

-- ===== src/Levels/Lookup.antt =====
-- `get_tcb` and `get_num_scheduled_tcb` on levels that stand for lists.
use virtual_memory_simulatio.Base.{
  ℕ, zero, suc, ◌+◌, ◌<◌, ◌≡◌, refl, ◌∙◌, ap, Bool, false, ◌==◌, ==_ne, if◌then◌else◌, List, [],
  ◌∷◌, ◌++◌, arith, length, length-append, ◌≤◌, Option, none, some, Bool-cases, inl, inr,
}
use virtual_memory_simulatio.Threads.{Tcb, Sched, ok, null, number_levels}
use virtual_memory_simulatio.Threads.Access.{load_tcb-ok, load_level-ok}
use virtual_memory_simulatio.Queue.Chain.{Chain}
use virtual_memory_simulatio.Levels.Holds.{Lists, SchedHolds}
use virtual_memory_simulatio.Levels.{
  find_from, get_from, get_tcb, count_from, count_levels, get_num_scheduled_tcb,
}

-- Does a thread with this tid stand at the address?
abbrev pub has_tid : ℕ → Option Tcb → Bool
has_tid tid none = false
has_tid tid (some t) = t.tid == tid

-- The first block of the list whose thread has the tid, or NULL.
abbrev pub first_with : (ℕ → Option Tcb) → ℕ → List ℕ → ℕ
first_with m tid [] = null
first_with m tid (x ∷ xs) = if has_tid tid (m x) then x else first_with m tid xs

find_from-Chain :
    (s : Sched) (tid : ℕ) (xs : List ℕ) (fuel p : ℕ)
    → Chain s.tcbs p xs
    → length xs < fuel
    → find_from fuel tid p s ≡ ok (first_with s.tcbs tid xs) s
unfolding find_from
find_from-Chain s tid xs zero p h f = absurd (omega arith)
find_from-Chain s tid [] (suc fuel) p h f = rw h refl
find_from-Chain s tid (x ∷ xs) (suc fuel) p (e, pos, t, held, h) f =
    let ih = find_from-Chain s tid xs fuel t.next_tcb h (omega arith) in
    elim (Bool-cases (t.tid == tid)) [
      | inl hit ↦ simp (e, ==_ne x 0 (omega arith), load_tcb-ok s x held pos, held, hit)
      | inr miss ↦ simp (e, ==_ne x 0 (omega arith), load_tcb-ok s x held pos, held, miss) ih
    ]

-- A list that goes on behind one in which the thread is, or is not.
first_with-append :
    (m : ℕ → Option Tcb) (tid p : ℕ) (xs ys : List ℕ)
    → Chain m p xs
    → first_with m tid (xs ++ ys)
      ≡ (if first_with m tid xs == null then first_with m tid ys else first_with m tid xs)
first_with-append m tid p [] ys h = refl
first_with-append m tid p (x ∷ xs) ys (e, pos, t, held, h) = elim (Bool-cases (t.tid == tid)) [
  | inl hit ↦ rw (held, hit, ==_ne x 0 (omega arith)) refl
  | inr miss ↦ rw (held, miss) (first_with-append m tid t.next_tcb xs ys h)
]

-- The threads of `rounds` levels from `i` on, in order.
abbrev pub listed : Lists → ℕ → ℕ → List ℕ
listed ls zero i = []
listed ls (suc rounds) i = ls i ++ listed ls rounds (i + 1)

get_from-Holds :
    (s : Sched) (ls : Lists) (fuel tid rounds i : ℕ)
    → SchedHolds s ls
    → ((j : ℕ) → j < number_levels → length (ls j) < fuel)
    → i + rounds ≤ number_levels
    → get_from rounds fuel tid i s ≡ ok (first_with s.tcbs tid (listed ls rounds i)) s
unfolding get_from
get_from-Holds s ls fuel tid zero i h f le = refl
get_from-Holds s ls fuel tid (suc rounds) i h f le =
    let is = h.queues i (omega arith) in
    let ih = get_from-Holds s ls fuel tid rounds (i + 1) h f (omega arith) in
    let ap' = first_with-append s.tcbs tid _ (ls i) (listed ls rounds (i + 1)) is.chain in
    elim (Bool-cases (first_with s.tcbs tid (ls i) == null)) [
      | inl none_here ↦
          rw
            (
              ap',
              none_here,
              load_level-ok s i (omega arith),
              find_from-Chain s tid (ls i) fuel _ is.chain (f i (omega arith)),
              none_here,
            )
            ih
      | inr found ↦
          rw
            (
              ap',
              found,
              load_level-ok s i (omega arith),
              find_from-Chain s tid (ls i) fuel _ is.chain (f i (omega arith)),
              found,
            )
            refl
    ]

-- get_tcb returns the first block with the tid, in the order of the levels and within a level from
-- the head on, and NULL if there is none. It changes nothing. Conditions: the levels stand for
-- lists, and the fuel exceeds the length of each.
pub get_tcb-first_with :
    (s : Sched) (ls : Lists) (fuel tid : ℕ)
    → SchedHolds s ls
    → ((i : ℕ) → i < number_levels → length (ls i) < fuel)
    → get_tcb fuel tid s ≡ ok (first_with s.tcbs tid (listed ls number_levels 0)) s
unfolding get_tcb
get_tcb-first_with s ls fuel tid h f =
    get_from-Holds s ls fuel tid number_levels 0 h f (omega arith)

count_from-Chain :
    (s : Sched) (count : ℕ) (xs : List ℕ) (fuel p : ℕ)
    → Chain s.tcbs p xs
    → length xs < fuel
    → count_from fuel count p s ≡ ok (count + length xs) s
unfolding count_from
count_from-Chain s count xs zero p h f = absurd (omega arith)
count_from-Chain s count [] (suc fuel) p h f = rw h (ap (λ n. ok n s) (omega arith))
count_from-Chain s count (x ∷ xs) (suc fuel) p (e, pos, t, held, h) f =
    rw (e, ==_ne x 0 (omega arith), load_tcb-ok s x held pos)
      (count_from-Chain s (count + 1) xs fuel t.next_tcb h (omega arith)
        ∙ ap (λ n. ok n s) (omega arith))

count_levels-Holds :
    (s : Sched) (ls : Lists) (fuel count rounds i : ℕ)
    → SchedHolds s ls
    → ((j : ℕ) → j < number_levels → length (ls j) < fuel)
    → i + rounds ≤ number_levels
    → count_levels rounds fuel count i s ≡ ok (count + length (listed ls rounds i)) s
unfolding count_levels
count_levels-Holds s ls fuel count zero i h f le = ap (λ n. ok n s) (omega arith)
count_levels-Holds s ls fuel count (suc rounds) i h f le =
    rw
      (
        load_level-ok s i (omega arith),
        count_from-Chain s count (ls i) fuel _ (h.queues i (omega arith)).chain (f i (omega arith)),
      )
      (count_levels-Holds s ls fuel (count + length (ls i)) rounds (i + 1) h f (omega arith)
        ∙ ap (λ n. ok n s) (omega (arith, length-append (ls i) (listed ls rounds (i + 1)))))

-- get_num_scheduled_tcb returns the number of blocks in all levels and changes nothing, if the
-- levels stand for lists and the fuel exceeds the length of each.
pub get_num_scheduled_tcb-length :
    (s : Sched) (ls : Lists) (fuel : ℕ)
    → SchedHolds s ls
    → ((i : ℕ) → i < number_levels → length (ls i) < fuel)
    → get_num_scheduled_tcb fuel s ≡ ok (length (listed ls number_levels 0)) s
unfolding get_num_scheduled_tcb
get_num_scheduled_tcb-length s ls fuel h f =
    count_levels-Holds s ls fuel 0 number_levels 0 h f (omega arith)
    ∙ ap (λ n. ok n s) (omega arith)

-- ===== src/Display/Entries.antt =====
-- What is printed for levels and wait queues that stand for lists.
use virtual_memory_simulatio.Base.{
  ℕ, zero, suc, ◌+◌, ◌<◌, ◌≤◌, ◌≡◌, refl, Bool, true, false, ==_ne, List, [], ◌∷◌, ◌++◌, arith,
  length, Option,
}
use virtual_memory_simulatio.Threads.{
  ThreadState, running, ready, waiting, yield, terminated, Tcb, Queue, Sched, ok, number_levels,
}
use virtual_memory_simulatio.Threads.Access.{load_tcb-ok, load_level-ok}
use virtual_memory_simulatio.Queue.Chain.{Chain, IsQueue}
use virtual_memory_simulatio.Levels.Holds.{Lists, SchedHolds}
use virtual_memory_simulatio.Levels.Fold.{blocks}
use virtual_memory_simulatio.Display.{
  Shown, says_running, says_ready, says_unknown, says_terminated, shown, Place, head_and_tail, head,
  tail, inner, place_of, Entry, thread, end_level, print_from, print_levels,
  print_multi_level_priority_queue, print_lock_from, print_lock_queue,
}

-- The place of a block among its level's, from the blocks in front of it and behind it.
abbrev pub place_in : Bool → List Tcb → Place
place_in false [] = head_and_tail
place_in false (t ∷ ts) = head
place_in true [] = tail
place_in true (t ∷ ts) = inner

-- The word for a state, and `unknown` for the states that the source does not name.
abbrev pub word_of : ThreadState → Shown
word_of running = says_running
word_of ready = says_ready
word_of waiting = says_unknown
word_of yield = says_unknown
word_of terminated = says_terminated

shown-word_of : (x : ThreadState) → shown x ≡ word_of x
shown-word_of running = refl
shown-word_of ready = refl
shown-word_of waiting = refl
shown-word_of yield = refl
shown-word_of terminated = refl

abbrev pub level_entries : ℕ → Bool → List Tcb → List Entry
level_entries i behind [] = []
level_entries i behind (t ∷ ts) =
    thread i (place_in behind ts) t.tid (word_of t.state) ∷ level_entries i true ts

abbrev pub entries : (ℕ → Option Tcb) → Lists → ℕ → ℕ → List Entry
entries m ls zero i = []
entries m ls (suc rounds) i =
    level_entries i false (blocks m (ls i)) ++ end_level i ∷ entries m ls rounds (i + 1)

place_of-Chain :
    (m : ℕ → Option Tcb) (b : Bool) (p : ℕ) (xs : List ℕ)
    → Chain m p xs
    → place_of b p ≡ place_in b (blocks m xs)
place_of-Chain m true p [] h = rw h refl
place_of-Chain m false p [] h = rw h refl
place_of-Chain m true p (x ∷ xs) (e, pos, t, held, h) = rw (e, ==_ne x 0 (omega arith), held) refl
place_of-Chain m false p (x ∷ xs) (e, pos, t, held, h) = rw (e, ==_ne x 0 (omega arith), held) refl

print_from-Chain :
    (s : Sched) (i : ℕ) (b : Bool) (xs : List ℕ) (fuel p : ℕ)
    → Chain s.tcbs p xs
    → length xs < fuel
    → print_from fuel i b p s ≡ ok (level_entries i b (blocks s.tcbs xs)) s
unfolding print_from
print_from-Chain s i b xs zero p h f = absurd (omega arith)
print_from-Chain s i b [] (suc fuel) p h f = rw h refl
print_from-Chain s i b (x ∷ xs) (suc fuel) p (e, pos, t, held, h) f =
    rw
      (
        e,
        ==_ne x 0 (omega arith),
        load_tcb-ok s x held pos,
        held,
        print_from-Chain s i true xs fuel t.next_tcb h (omega arith),
        place_of-Chain s.tcbs b t.next_tcb xs h,
        shown-word_of t.state,
      )
      refl

print_levels-Holds :
    (s : Sched) (ls : Lists) (fuel rounds i : ℕ)
    → SchedHolds s ls
    → ((j : ℕ) → j < number_levels → length (ls j) < fuel)
    → i + rounds ≤ number_levels
    → print_levels rounds fuel i s ≡ ok (entries s.tcbs ls rounds i) s
unfolding print_levels
print_levels-Holds s ls fuel zero i h f le = refl
print_levels-Holds s ls fuel (suc rounds) i h f le =
    rw
      (
        load_level-ok s i (omega arith),
        print_from-Chain s i false (ls i) fuel _ (h.queues i (omega arith)).chain
            (f i (omega arith)),
        print_levels-Holds s ls fuel rounds (i + 1) h f (omega arith),
      )
      refl

-- print_multi_level_priority_queue prints each thread of each level once, from the head on, with
-- its place, tid and the word for its state (terminated, ready, running, or unknown for any
-- other), and the end of each level, and changes nothing. Conditions: the levels stand for lists,
-- and the fuel exceeds the length of each.
pub print_multi_level_priority_queue-entries :
    (s : Sched) (ls : Lists) (fuel : ℕ)
    → SchedHolds s ls
    → ((i : ℕ) → i < number_levels → length (ls i) < fuel)
    → print_multi_level_priority_queue fuel s ≡ ok (entries s.tcbs ls number_levels 0) s
unfolding print_multi_level_priority_queue
print_multi_level_priority_queue-entries s ls fuel h f =
    print_levels-Holds s ls fuel number_levels 0 h f (omega arith)

abbrev pub lock_entries : List Tcb → List (ℕ × Shown)
lock_entries [] = []
lock_entries (t ∷ ts) = (t.tid, word_of t.state) ∷ lock_entries ts

print_lock_from-Chain :
    (s : Sched) (xs : List ℕ) (fuel p : ℕ)
    → Chain s.tcbs p xs
    → length xs < fuel
    → print_lock_from fuel p s ≡ ok (lock_entries (blocks s.tcbs xs)) s
unfolding print_lock_from
print_lock_from-Chain s xs zero p h f = absurd (omega arith)
print_lock_from-Chain s [] (suc fuel) p h f = rw h refl
print_lock_from-Chain s (x ∷ xs) (suc fuel) p (e, pos, t, held, h) f =
    rw
      (
        e,
        ==_ne x 0 (omega arith),
        load_tcb-ok s x held pos,
        held,
        print_lock_from-Chain s xs fuel t.next_tcb h (omega arith),
        shown-word_of t.state,
      )
      refl

-- print_lock_queue prints the tid and the state of each thread of a queue that stands for a list,
-- in order, and changes nothing, if the fuel exceeds its length.
pub print_lock_queue-entries :
    (s : Sched) (q : Queue) (xs : List ℕ) (fuel : ℕ)
    → IsQueue s.tcbs q xs
    → length xs < fuel
    → print_lock_queue fuel q s ≡ ok (lock_entries (blocks s.tcbs xs)) s
unfolding print_lock_queue
print_lock_queue-entries s q xs fuel is f = print_lock_from-Chain s xs fuel q.head is.chain f

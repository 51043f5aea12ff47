-- ===== src/Levels/Fold.antt =====
-- `fold_mlpq_to_array` on levels that stand for lists.
use virtual_memory_simulatio.Base.{
  ℕ, zero, suc, ◌+◌, ◌-◌, ◌*◌, ap, length-append, ◌<◌, ◌≤◌, ◌≡◌, refl, ==_ne, List, [], ◌∷◌, ◌++◌,
  arith, length, Option, none, some,
}
use virtual_memory_simulatio.Threads.{Tcb, Sched, ok, number_levels}
use virtual_memory_simulatio.Threads.Access.{load_tcb-ok, load_level-ok}
use virtual_memory_simulatio.Queue.Chain.{Chain}
use virtual_memory_simulatio.Levels.Holds.{Lists, SchedHolds}
use virtual_memory_simulatio.Levels.Lookup.{listed, get_num_scheduled_tcb-length}
use virtual_memory_simulatio.Levels.{copy_from, copy_levels, fold_mlpq_to_array}

-- The control blocks at the addresses of a list.
abbrev pub push : Option Tcb → List Tcb → List Tcb
push none ts = ts
push (some t) ts = t ∷ ts

abbrev pub blocks : (ℕ → Option Tcb) → List ℕ → List Tcb
blocks m [] = []
blocks m (x ∷ xs) = push (m x) (blocks m xs)

push-append : (o : Option Tcb) (ts us : List Tcb) → push o ts ++ us ≡ push o (ts ++ us)
push-append none ts us = refl
push-append (some t) ts us = refl

blocks-append :
    (m : ℕ → Option Tcb) (xs ys : List ℕ) → blocks m (xs ++ ys) ≡ blocks m xs ++ blocks m ys
blocks-append m [] ys = refl
blocks-append m (x ∷ xs) ys = rw (blocks-append m xs ys, push-append) refl

copy_from-Chain :
    (s : Sched) (xs : List ℕ) (fuel room p : ℕ)
    → Chain s.tcbs p xs
    → length xs < fuel
    → length xs ≤ room
    → copy_from fuel room p s ≡ ok (blocks s.tcbs xs) s
unfolding copy_from
copy_from-Chain s xs zero room p h f r = absurd (omega arith)
copy_from-Chain s [] (suc fuel) room p h f r = rw h refl
copy_from-Chain s (x ∷ xs) (suc fuel) room p (e, pos, t, held, h) f r =
    rw
      (
        e,
        ==_ne x 0 (omega arith),
        ==_ne room 0 (omega arith),
        load_tcb-ok s x held pos,
        held,
        copy_from-Chain s xs fuel (room - 1) t.next_tcb h (omega arith) (omega arith),
      )
      refl

-- There are as many copies as blocks.
length-blocks :
    (m : ℕ → Option Tcb) (p : ℕ) (xs : List ℕ) → Chain m p xs → length (blocks m xs) ≡ length xs
length-blocks m p [] h = refl
length-blocks m p (x ∷ xs) (e, pos, t, held, h) = rw held (ap suc (length-blocks m t.next_tcb xs h))

copy_levels-Holds :
    (s : Sched) (ls : Lists) (fuel room rounds i : ℕ)
    → SchedHolds s ls
    → ((j : ℕ) → j < number_levels → length (ls j) < fuel)
    → i + rounds ≤ number_levels
    → length (listed ls rounds i) ≤ room
    → copy_levels rounds fuel room i s ≡ ok (blocks s.tcbs (listed ls rounds i)) s
unfolding copy_levels
copy_levels-Holds s ls fuel room zero i h f le r = refl
copy_levels-Holds s ls fuel room (suc rounds) i h f le r =
    let chain = (h.queues i (omega arith)).chain in
    let more = length-append (ls i) (listed ls rounds (i + 1)) in
    let same = length-blocks s.tcbs _ (ls i) chain in
    rw
      (
        load_level-ok s i (omega arith),
        copy_from-Chain s (ls i) fuel room _ chain (f i (omega arith)) (omega (arith, more)),
        copy_levels-Holds s ls fuel (room - length (blocks s.tcbs (ls i))) rounds (i + 1) h f
            (omega arith) (omega (arith, more, same)),
        blocks-append s.tcbs (ls i) (listed ls rounds (i + 1)),
      )
      refl

-- fold_mlpq_to_array returns the array that my_allocate returns for the control blocks that
-- get_num_scheduled_tcb counts, and fills it, without a write behind its end, with the control
-- blocks of all levels, in the order of the levels and within a level from the head on; the
-- levels, the blocks and all else of the scheduler stay as they are. Conditions: the levels stand
-- for lists, the fuel exceeds the length of each, and my_allocate returns for the size of the
-- array.
pub fold_mlpq_to_array-blocks :
    (s : Sched) (ls : Lists) (sizeof_tcb : ℕ) (my_allocate : ℕ → Option ℕ) (fuel tcb_array : ℕ)
    → SchedHolds s ls
    → ((i : ℕ) → i < number_levels → length (ls i) < fuel)
    → my_allocate (sizeof_tcb * length (listed ls number_levels 0)) ≡ some tcb_array
    → fold_mlpq_to_array sizeof_tcb my_allocate fuel s
      ≡ ok (tcb_array, blocks s.tcbs (listed ls number_levels 0)) s
unfolding fold_mlpq_to_array
fold_mlpq_to_array-blocks s ls sizeof_tcb my_allocate fuel tcb_array h f there =
    rw
      (
        get_num_scheduled_tcb-length s ls fuel h f,
        there,
        copy_levels-Holds s ls fuel (length (listed ls number_levels 0)) number_levels 0 h f
            (omega arith) (omega arith),
      )
      refl

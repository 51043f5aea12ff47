-- ===== src/Levels/Remove.antt =====
-- `get_and_remove_tcb` at the head of level 0.
use virtual_memory_simulatio.Base.{
  ℕ, suc, ◌+◌, ◌≡◌, sym, ◌∙◌, List, ◌∷◌, some, arith, ==_ne, ==_refl, length,
}
use virtual_memory_simulatio.Threads.{Tcb, Queue, Sched, ok, update}
use virtual_memory_simulatio.Threads.Access.{load_tcb-ok, load_level-ok, store_level-ok}
use virtual_memory_simulatio.Queue.Chain.{Chain}
use virtual_memory_simulatio.Levels.Holds.{Lists, SchedHolds}
use virtual_memory_simulatio.Levels.Move.{level-IsQueue}
use virtual_memory_simulatio.Levels.{get_and_remove_tcb, remove_levels, remove_from, unlink}

-- get_and_remove_tcb of the first thread of level 0 returns its block and leaves the rest of the
-- list linked from the head of the level, but the size of the level still counts the block, so
-- that it is one more than the list is long. Condition: the levels stand for lists.
pub get_and_remove_tcb_size :
    (s : Sched) (ls : Lists) (fuel x : ℕ) (xs : List ℕ) (t : Tcb)
    → SchedHolds s ls
    → ls 0 ≡ x ∷ xs
    → s.tcbs x ≡ some t
    → (u : Sched) × (get_and_remove_tcb (suc fuel) t.tid s ≡ ok x u)
      × Chain u.tcbs (u.multi_level_priority_queue 0).head xs
      × ((u.multi_level_priority_queue 0).size ≡ length xs + 1)
unfolding get_and_remove_tcb remove_levels remove_from unlink
get_and_remove_tcb_size s ls fuel x xs t h e held =
    let q = s.multi_level_priority_queue 0 in
    let is = level-IsQueue s ls 0 x xs h (omega arith) e in
    let (eh, p, t', held', ch) = is.chain in
    let eqt : t' ≡ t = cc (sym held' ∙ held) in
    let q' : Queue = record q { head = t.next_tcb } in
    let lv = update s.multi_level_priority_queue 0 q' in
    (
      record s { multi_level_priority_queue = lv },
      simp (
        load_level-ok s 0 (omega arith),
        eh,
        ==_ne x 0 (omega arith),
        load_tcb-ok s x held p,
        ==_refl t.tid,
        ==_refl x,
        store_level-ok s 0 q' (omega arith),
      ),
      rw (sym eqt) ch,
      omega (arith, is.size),
    )

-- ===== src/Switch/Turn.antt =====
-- The two halves of a turn of `my_pthread_yield_helper`, when all threads stand in level 0.
use virtual_memory_simulatio.Base.{
  ℕ, length, suc, ◌<◌, ◌≡◌, ◌≢◌, refl, sym, ◌∙◌, ap, subst, List, [], ◌∷◌, ◌++◌, Option, some,
  arith, false, Bool-cases, inl, inr, ◌==◌,
}
use virtual_memory_simulatio.Threads.{Timeval, Tcb, Sched, change_tcb, with_next}
use virtual_memory_simulatio.Threads.Access.{load_tcb-ok}
use virtual_memory_simulatio.Threads.Related.{Related, AllAt, AllAt-Related, AllAt-snoc}
use virtual_memory_simulatio.Levels.Holds.{SchedHolds}
use virtual_memory_simulatio.Levels.Move.{Holds-ext, update_twice}
use virtual_memory_simulatio.Switch.{is_terminated, is_yield, install, my_pthread_yield_helper}
use virtual_memory_simulatio.Switch.Rotate.{rested, requeue-Holds}
use virtual_memory_simulatio.Switch.Single.{
  single, IsPlain, Single, SameKind, IsPlain-SameKind, rounds_left, choose_current-single, Within,
  Beside, rounds_left-few,
}

rested-SameKind : (t : Tcb) (n : ℕ) → is_yield t.state ≡ false → SameKind t (with_next n (rested t))
rested-SameKind t n active = elim (Bool-cases (is_terminated t.state)) [
  | inl over ↦ rw over ((refl, refl, refl), refl, over)
  | inr going ↦ rw going ((refl, refl, refl), sym active, refl)
]

-- The first block of the level becomes READY, and of the others only links change.
requeue-kinds :
    (m m' : ℕ → Option Tcb) (x : ℕ) (t : Tcb)
    → m x ≡ some t
    → is_yield t.state ≡ false
    → ((z : ℕ) → z ≢ x → (u : Tcb) → m z ≡ some u → (n : ℕ) × (m' z ≡ some (with_next n u)))
    → (n : ℕ) × (m' x ≡ some (with_next n (rested t)))
    → Related SameKind m m'
requeue-kinds m m' x t ex active links (n, placed) z u held = elim (Bool-cases (z == x)) [
  | inl hit ↦
      let at : z ≡ x = ground arith in
      let equ : some u ≡ some t = sym held ∙ ap m at ∙ ex in
      let eu : u ≡ t = cc equ in
      (with_next n (rested t), ap m' at ∙ placed, rw eu (rested-SameKind t n active))
  | inr miss ↦
      let (k, there) = links z (ground arith) u held in
      (with_next k u, there, ((refl, refl, refl), refl, refl))
]

-- One turn of the helper: the first thread has gone to the end of the level, the next one is
-- chosen, and what is left is to run it.
pub record Turn (s : Sched) (x y : ℕ) (xs ys : List ℕ) : Type 0 where
  pub final : Sched
  pub runs :
      (fuel : ℕ) (now : Timeval)
      → my_pthread_yield_helper (suc fuel) now s
        ≡ install
            (my_pthread_yield_helper fuel now)
            (change_tcb x (λ u. record u { last_yield_time = now }))
            now
            final
  pub single : Single final (y ∷ ys)
  pub current : final.current_tcb ≡ y
  pub kinds : Related SameKind s.tcbs final.tcbs
  pub cells : final.cells ≡ s.cells
  pub within : Within (x ∷ xs) s.tcbs final.tcbs
  pub beside : Beside s final
  pub few : final.has_run < length (y ∷ ys)

pub my_pthread_yield_helper-Turn :
    (s : Sched) (x y : ℕ) (xs ys : List ℕ) (cur : Tcb)
    → Single s (x ∷ xs)
    → s.tcbs s.current_tcb ≡ some cur
    → 0 < s.current_tcb
    → cur.priority ≡ 0
    → xs ++ x ∷ [] ≡ y ∷ ys
    → Turn s x y xs ys
unfolding my_pthread_yield_helper
my_pthread_yield_helper-Turn s x y xs ys cur g e p prio turned =
    let (t, ex, (level, active)) = g.plain.0 in
    let r = requeue-Holds s (single (x ∷ xs)) 0 x xs t g.holds (omega arith) refl ex level in
    let s1 : Sched = record s { tcbs = r.tcbs; multi_level_priority_queue = r.levels } in
    let h1 : SchedHolds s1 (single (y ∷ ys)) =
      Holds-ext r.tcbs r.levels _ _ r.holds
        (λ i. update_twice (λ _. []) 0 (x ∷ xs) (xs ++ x ∷ []) i ∙ ap (λ l. single l i) turned) in
    let kinds : Related SameKind s.tcbs r.tcbs =
      requeue-kinds s.tcbs r.tcbs x t ex active r.links r.placed in
    record {
      final = record s1 { current_tcb = y; has_run = rounds_left (r.levels 0).size s.has_run };
      runs = λ fuel now.
          simp (load_tcb-ok s s.current_tcb e p, prio, r.runs, choose_current-single s1 y ys h1);
      single = record {
        holds = h1;
        plain =
            subst (λ l. AllAt r.tcbs IsPlain l) turned
              (AllAt-snoc r.tcbs IsPlain x xs (
                AllAt-Related SameKind IsPlain s.tcbs r.tcbs (x ∷ xs) kinds IsPlain-SameKind
                  g.plain));
      };
      current = refl;
      kinds = kinds;
      cells = refl;
      within = λ z o v held. (v, r.others z o ∙ held, refl);
      beside = (refl, refl, refl, refl);
      few =
          rounds_left-few (r.levels 0).size s.has_run (length ys) (h1.queues 0 (omega arith)).size;
    }

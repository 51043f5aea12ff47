-- ===== src/Pthread/Sound/Fields.antt =====
-- Calls that change fields of one block: `my_pthread_exit` and the two ends of
-- `thread_function_wrapper`.
use virtual_memory_simulatio.Base.{
  ℕ, ◌≡◌, refl, sym, subst, some, Bool, inl, inr, if◌then◌else◌, Bool-cases,
}
use virtual_memory_simulatio.Threads.{
  Timeval, Tcb, Sched, ok, and_then, pure, terminated, update, change_tcb, with_state,
}
use virtual_memory_simulatio.Threads.Access.{
  load_tcb-null, load_tcb-ok, load_tcb-found, change_tcb-found,
}
use virtual_memory_simulatio.Threads.Related.{Related, Related-update}
use virtual_memory_simulatio.Switch.{is_terminated, wrapper_start, wrapper_return, wrapper_end}
use virtual_memory_simulatio.Pthread.{my_pthread_exit}
use virtual_memory_simulatio.Pthread.Sound.{IsSound, Fields, Sound-Fields}

-- One assignment to fields of a block, but for its link and its priority.
pub change_tcb-Sound :
    (s t : Sched) (made : ℕ → Bool) (p : ℕ) (f : Tcb → Tcb)
    → IsSound s made
    → ((v : Tcb) → Fields v (f v))
    → change_tcb p f s ≡ ok tt t
    → IsSound t made
change_tcb-Sound s t made p f g kind e =
    let (v, held, end) = change_tcb-found s t p f e in
    let u : Sched = record s { tcbs = update s.tcbs p (some (f v)) } in
    let r : Related Fields s.tcbs u.tcbs =
      Related-update Fields s.tcbs p v (f v) held (kind v) (λ w. (refl, (refl, λ q. q))) in
    subst (λ w. IsSound w made) (sym end)
      (record {
        level = g.level;
        wait = g.wait;
        sound = Sound-Fields s u made g.level g.wait g.sound r (record {
          levels = refl;
          mutexes = refl;
          current = refl;
          after = refl;
          init = refl;
          last = refl;
        });
      })

-- The cells of the return values are no part of what is sound.
cells-Sound :
    (s : Sched) (made : ℕ → Bool) (cells : ℕ → ℕ)
    → IsSound s made
    → IsSound (record s { cells = cells }) made
cells-Sound s made cells g =
    let u : Sched = record s { cells = cells } in
    record {
      level = g.level;
      wait = g.wait;
      sound =
          Sound-Fields s u made g.level g.wait g.sound (λ z v e. (v, e, (refl, (refl, λ q. q))))
            (record {
              levels = refl;
              mutexes = refl;
              current = refl;
              after = refl;
              init = refl;
              last = refl;
            });
    }

pub my_pthread_exit-Sound :
    (s t : Sched) (made : ℕ → Bool) (v : ℕ)
    → IsSound s made
    → my_pthread_exit v s ≡ ok tt t
    → IsSound t made
unfolding my_pthread_exit
my_pthread_exit-Sound s t made v g e = elim g.sound.current [
  | inl at ↦ absurd (cc (e, load_tcb-null s s.current_tcb at))
  | inr c ↦
      let cs = update s.cells c.block.return_value v in
      change_tcb-Sound (record s { cells = cs }) t made s.current_tcb (with_state terminated)
        (cells-Sound s made cs g) (λ w. (refl, (refl, λ q. refl)))
        (subst
          (λ r.
            and_then r (λ b u.
              change_tcb u.current_tcb (with_state terminated)
                (record u { cells = update u.cells b.return_value v }))
            ≡ ok tt t)
          (load_tcb-ok s s.current_tcb c.held c.pos) e)
]

pub wrapper_start-Sound :
    (s t : Sched) (made : ℕ → Bool) (p : ℕ) (now : Timeval)
    → IsSound s made
    → wrapper_start p now s ≡ ok tt t
    → IsSound t made
unfolding wrapper_start
wrapper_start-Sound s t made p now g e =
    change_tcb-Sound s t made p _ g (λ w. (refl, (refl, λ q. refl))) e

pub wrapper_return-Sound :
    (s t : Sched) (made : ℕ → Bool) (p v : ℕ)
    → IsSound s made
    → wrapper_return p v s ≡ ok tt t
    → IsSound t made
unfolding wrapper_return
wrapper_return-Sound s t made p v g e =
    let (b, held, pos, run) = load_tcb-found s t p _ tt e in
    change_tcb-Sound (record s { cells = update s.cells b.return_value v }) t made p
      (with_state terminated) (cells-Sound s made (update s.cells b.return_value v) g)
      (λ w. (refl, (refl, λ q. refl))) run

pub wrapper_end-Sound :
    (s t : Sched) (made : ℕ → Bool) (p v : ℕ)
    → IsSound s made
    → wrapper_end p v s ≡ ok tt t
    → IsSound t made
unfolding wrapper_end
wrapper_end-Sound s t made p v g e =
    let (b, held, pos, run) = load_tcb-found s t p _ tt e in
    elim (Bool-cases (is_terminated b.state)) [
      | inl over ↦
          let same : ok tt s ≡ ok tt t =
            subst (λ c. (if c then pure tt else wrapper_return p v) s ≡ ok tt t) over run in
          let st : s ≡ t = cc same in subst (λ w. IsSound w made) st g
      | inr going ↦
          wrapper_return-Sound s t made p v g
            (subst (λ c. (if c then pure tt else wrapper_return p v) s ≡ ok tt t) going run)
    ]

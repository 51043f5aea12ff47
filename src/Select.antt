-- ===== src/Select.antt =====
-- `quick_select` and `scheduler_maintenance` of my_pthread.c. An array is a list. No code calls
-- `scheduler_maintenance`: its call in `signal_handler` is commented out.
mod Tests
pub mod Array
pub mod Split
use mathlib.Core.Option
use virtual_memory_simulatio.Base.{
  ℕ, zero, suc, ◌+◌, ◌-◌, ◌*◌, ◌/◌, ◌==◌, ltb, if◌then◌else◌, Bool, true, false, Option, none, some,
  List, [], ◌∷◌, get_or, set,
}
use virtual_memory_simulatio.Threads.{
  Timeval, Tcb, Cmd, given, pure, fail, out_of_fuel, ◌>>=◌, ◌>>◌,
}
use virtual_memory_simulatio.Levels.{fold_mlpq_to_array, get_num_scheduled_tcb, change_priority}

-- `timercmp(a, b, <)`, and the other comparisons by it.
abbrev pub earlier : Timeval → Timeval → Bool
earlier a b = if a.tv_sec == b.tv_sec then ltb a.tv_usec b.tv_usec else ltb a.tv_sec b.tv_sec

module _ (blank : Tcb) where
  abbrev pub time_at : List Tcb → ℕ → Timeval
  time_at arr i = (get_or arr i blank).initial_start_time

  abbrev pub swap : List Tcb → ℕ → ℕ → List Tcb
  swap arr i j = set (set arr j (get_or arr i blank)) i (get_or arr j blank)

  -- `while (r < w)`: the array and the last `r`. A round moves `r` up or `w` down, so that the
  -- distance of the two is fuel enough.
  unfoldable pub partition : ℕ → Timeval → List Tcb → ℕ → ℕ → List Tcb × ℕ
  partition zero mid arr r w = (arr, r)
  partition (suc fuel) mid arr r w = elim (ltb r w) [
    | false ↦ (arr, r)
    | true ↦ elim (earlier (time_at arr r) mid) [
      | true ↦ partition fuel mid arr (r + 1) w
      | false ↦ partition fuel mid (swap arr r w) r (w - 1)
    ]
  ]

  -- The number of elements up to `r`, after the step back at an element above the pivot. `r` itself
  -- can become -1 there.
  abbrev pub count_below : Timeval → List Tcb → ℕ → ℕ
  count_below mid arr r = if earlier mid (time_at arr r) then r else r + 1

  -- `while (from < to)`, on fuel.
  unfoldable pub select_loop : ℕ → List Tcb → ℕ → ℕ → ℕ → Option (List Tcb)
  unfolding partition
  select_loop zero arr from to k = none
  select_loop (suc fuel) arr from to k = elim (ltb from to) [
    | false ↦ some arr
    | true ↦
        let mid = time_at arr ((from + to) / 2) in
        let (arr', r) = partition (to - from) mid arr from to in
        let n = count_below mid arr' r in
        elim (ltb k n) [
          | true ↦ select_loop fuel arr' from (n - 1) k
          | false ↦ select_loop fuel arr' n to k
        ]
  ]

  unfoldable pub quick_select : ℕ → List Tcb → ℕ → ℕ → Option Tcb
  unfolding select_loop
  quick_select fuel tcb_array len k =
      Option.map (λ arr. get_or arr k blank) (select_loop fuel tcb_array 0 (len - 1) k)

  -- The loop that collects the threads that are not younger than `oldest`, `room` of them at most.
  abbrev pub collect : ℕ → Timeval → List Tcb → List ℕ
  collect room oldest [] = []
  collect zero oldest (t ∷ ts) = []
  collect (suc room) oldest (t ∷ ts) =
      if earlier oldest t.initial_start_time
      then collect (suc room) oldest ts
      else t.tid ∷ collect room oldest ts

  abbrev pub tail_of : List Tcb → List Tcb
  tail_of [] = []
  tail_of (t ∷ ts) = ts

  abbrev promote_all : ℕ → List ℕ → Cmd (Unit {0})
  promote_all fuel [] = pure tt
  promote_all fuel (tid ∷ tids) = change_priority fuel tid 0 >> promote_all fuel tids

  abbrev pub pad : ℕ → (ℕ → ℕ) → List ℕ → List ℕ
  pad zero junk tids = []
  pad (suc n) junk [] = junk n ∷ pad n junk []
  pad (suc n) junk (tid ∷ tids) = tid ∷ pad n junk tids

  abbrev selected : Option Tcb → Cmd Tcb
  selected (some t) = pure t
  selected none = fail out_of_fuel

  -- `oldest_size` is CEILING(num_scheduled * 0.15), a computation with floats. Where fewer threads
  -- are collected, the rest of the array is what the memory held, with the tids `junk`. `tcb_array`
  -- is allocated by `fold_mlpq_to_array`; two more arrays are allocated here.
  pub scheduler_maintenance : ℕ → (ℕ → Option ℕ) → ℕ → ℕ → (ℕ → ℕ) → Cmd (Unit {0})
  unfolding quick_select
  scheduler_maintenance sizeof_tcb my_allocate fuel oldest_size junk =
      fold_mlpq_to_array sizeof_tcb my_allocate fuel >>= λ r.
      let tcb_array = r.1 in
      get_num_scheduled_tcb fuel >>= λ num_scheduled.
      given (my_allocate (sizeof_tcb * num_scheduled)) >>= λ tmp_tcb_array.
      given (my_allocate (sizeof_tcb * oldest_size)) >>= λ oldest_tcb_array.
      selected (quick_select fuel tcb_array num_scheduled (oldest_size - 1)) >>= λ oldest.
      let more = collect (oldest_size - 1) oldest.initial_start_time (tail_of tcb_array) in
      promote_all fuel (pad oldest_size junk (oldest.tid ∷ more))

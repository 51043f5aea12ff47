-- ===== src/Select/Split.antt =====
-- What a round of `quick_select` does to the array.
use mathlib.Core.List.{Perm}
use mathlib.Core.List.Perm
use virtual_memory_simulatio.Base.{
  ℕ, zero, suc, ◌+◌, ◌-◌, ◌≤◌, ◌<◌, ◌≡◌, ◌≢◌, refl, ◌∙◌, ap, List, arith, length, get_or, true,
  false, ltb, ◌==◌, Bool-cases, inl, inr, ◌⊎◌,
}
use virtual_memory_simulatio.Threads.{Timeval, Tcb}
use virtual_memory_simulatio.Select.{earlier, time_at, partition, count_below, swap}
use virtual_memory_simulatio.Select.Array.{
  length-exchanged, exchanged_right, exchanged_other, exchanged-Perm,
}

earlier_asym : (a b : Timeval) → earlier a b ≡ true → earlier b a ≡ false
earlier_asym a b e = ground (arith, e)

module _ (blank : Tcb) (mid : Timeval) where
  -- The array has the same elements; those from `from` up to `r` are earlier than `mid`, those
  -- behind `r` up to `to` are not, and the others stand where they stood.
  pub record Parted (arr arr' : List Tcb) (from r to : ℕ) : Type 0 where
    pub perm : Perm arr' arr
    pub lower : from ≤ r
    pub upper : r ≤ to
    pub below : (i : ℕ) → from ≤ i → i < r → earlier (time_at blank arr' i) mid ≡ true
    pub above : (i : ℕ) → r < i → i ≤ to → earlier (time_at blank arr' i) mid ≡ false
    pub outside : (i : ℕ) → (i < from) ⊎ (to < i) → get_or arr' i blank ≡ get_or arr i blank

  at_end : (arr : List Tcb) (r w : ℕ) → r ≤ w → w ≤ r → Parted arr arr r r w
  at_end arr r w le ge = record {
    perm = Perm.refl arr;
    lower = omega arith;
    upper = le;
    below = λ i lo hi. absurd (omega (arith, lo, hi));
    above = λ i lo hi. absurd (omega (arith, lo, hi, ge));
    outside = λ i _. refl;
  }

  pub partition-Parted :
      (fuel : ℕ) (arr : List Tcb) (r w : ℕ)
      → r ≤ w
      → w < length arr
      → w ≤ r + fuel
      → Parted arr (partition blank fuel mid arr r w).0 r (partition blank fuel mid arr r w).1 w
  unfolding partition
  partition-Parted zero arr r w le inside enough = at_end arr r w le (omega (arith, enough))
  partition-Parted (suc fuel) arr r w le inside enough = elim (Bool-cases (ltb r w)) [
    | inr done ↦ rw (done, partition) (at_end arr r w le (ground arith))
    | inl more ↦ elim (Bool-cases (earlier (time_at blank arr r) mid)) [
      | inl low ↦
          let lt : r < w = ground arith in
          let p =
            partition-Parted fuel arr (r + 1) w (omega (arith, lt)) inside
              (omega (arith, enough)) in
          rw (more, low, partition)
            (record {
              perm = p.perm;
              lower = omega (arith, p.lower);
              upper = p.upper;
              below = λ i lo hi. elim (Bool-cases (i == r)) [
                | inl hit ↦
                    let at : i ≡ r = ground arith in
                    ap (λ t. earlier t.initial_start_time mid)
                      (p.outside i (inl (omega (arith, at))) ∙ ap (λ k. get_or arr k blank) at)
                    ∙ low
                | inr miss ↦ let ne : i ≢ r = ground arith in p.below i (omega (arith, lo, ne)) hi
              ];
              above = p.above;
              outside = λ i off. p.outside i (widen i off);
            })
      | inr high ↦
          let lt : r < w = ground arith in
          let hr : r < length arr = omega (arith, lt, inside) in
          let ne : w ≢ r = λ e. omega (arith, e, lt) in
          let arr1 = swap blank arr r w in
          let p =
            partition-Parted fuel arr1 r (w - 1) (omega (arith, lt))
              (omega (arith, inside, length-exchanged blank arr r w hr inside))
              (omega (arith, enough)) in
          rw (more, high, partition)
            (record {
              perm = Perm.trans p.perm (exchanged-Perm blank arr r w hr inside ne);
              lower = p.lower;
              upper = omega (arith, p.upper);
              below = p.below;
              above = λ i lo hi. elim (Bool-cases (i == w)) [
                | inl hit ↦
                    let at : i ≡ w = ground arith in
                    ap (λ t. earlier t.initial_start_time mid)
                      (p.outside i (inr (omega (arith, at, lt)))
                        ∙ ap (λ k. get_or arr1 k blank) at
                        ∙ exchanged_right blank arr r w hr inside ne)
                    ∙ high
                | inr miss ↦ let off : i ≢ w = ground arith in p.above i lo (omega (arith, hi, off))
              ];
              outside = λ i off.
                  p.outside i (closer i off)
                  ∙ exchanged_other blank arr r w hr inside i (away_left i off lt)
                      (away_right i off lt);
            })
    ]
  ]
    where
      widen : (i : ℕ) → (i < r) ⊎ (w < i) → (i < r + 1) ⊎ (w < i)
      widen i (inl h) = inl (omega (arith, h))
      widen i (inr h) = inr h

      closer : (i : ℕ) → (i < r) ⊎ (w < i) → (i < r) ⊎ (w - 1 < i)
      closer i (inl h) = inl h
      closer i (inr h) = inr (omega (arith, h))

      away_left : (i : ℕ) → (i < r) ⊎ (w < i) → r < w → i ≢ r
      away_left i (inl h) lt e = omega (arith, h, e)
      away_left i (inr h) lt e = omega (arith, h, e, lt)

      away_right : (i : ℕ) → (i < r) ⊎ (w < i) → r < w → i ≢ w
      away_right i (inl h) lt e = omega (arith, h, e, lt)
      away_right i (inr h) lt e = omega (arith, h, e)

  -- The elements from `from` on that stand before `n` are not later than `mid`, those from `n` up
  -- to `to` are not earlier.
  pub record Divided (arr arr' : List Tcb) (from n to : ℕ) : Type 0 where
    pub perm : Perm arr' arr
    pub lower : from ≤ n
    pub upper : n ≤ to + 1
    pub below : (i : ℕ) → from ≤ i → i < n → earlier mid (time_at blank arr' i) ≡ false
    pub above : (i : ℕ) → n ≤ i → i ≤ to → earlier (time_at blank arr' i) mid ≡ false
    pub outside : (i : ℕ) → (i < from) ⊎ (to < i) → get_or arr' i blank ≡ get_or arr i blank

  counted :
      (arr arr' : List Tcb) (from r to : ℕ)
      → Parted arr arr' from r to
      → Divided arr arr' from (count_below blank mid arr' r) to
  counted arr arr' from r to p = elim (Bool-cases (earlier mid (time_at blank arr' r))) [
    | inl later ↦ rw later (record {
      perm = p.perm;
      lower = p.lower;
      upper = omega (arith, p.upper);
      below = λ i lo hi. earlier_asym (time_at blank arr' i) mid (p.below i lo hi);
      above = λ i lo hi. elim (Bool-cases (i == r)) [
        | inl hit ↦
            let at : i ≡ r = ground arith in
            ap (λ k. earlier (time_at blank arr' k) mid) at
            ∙ earlier_asym mid (time_at blank arr' r) later
        | inr miss ↦ let ne : i ≢ r = ground arith in p.above i (omega (arith, lo, ne)) hi
      ];
      outside = p.outside;
    })
    | inr kept ↦ rw kept (record {
      perm = p.perm;
      lower = omega (arith, p.lower);
      upper = omega (arith, p.upper);
      below = λ i lo hi. elim (Bool-cases (i == r)) [
        | inl hit ↦
            let at : i ≡ r = ground arith in ap (λ k. earlier mid (time_at blank arr' k)) at ∙ kept
        | inr miss ↦
            let ne : i ≢ r = ground arith in
            earlier_asym (time_at blank arr' i) mid (p.below i lo (omega (arith, hi, ne)))
      ];
      above = λ i lo hi. p.above i (omega (arith, lo)) hi;
      outside = p.outside;
    })
  ]

  -- A round of quick_select permutes the array and divides the part between from and to at the
  -- place that it goes on with: the elements of the part before that place are not later than the
  -- pivot, those from it on are not earlier, the place is at least from and at most behind to, and
  -- the elements outside of the part stay where they are. Conditions: from is at most to, and to
  -- lies in the array.
  pub partition-Divided :
      (arr : List Tcb) (from to : ℕ)
      → from ≤ to
      → to < length arr
      → Divided arr
          (partition blank (to - from) mid arr from to).0
          from
          (count_below blank mid
            (partition blank (to - from) mid arr from to).0
            (partition blank (to - from) mid arr from to).1)
          to
  partition-Divided arr from to le inside =
      counted arr (partition blank (to - from) mid arr from to).0 from
        (partition blank (to - from) mid arr from to).1 to
        (partition-Parted (to - from) arr from to le inside (omega (arith, le)))

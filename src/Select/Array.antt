-- ===== src/Select/Array.antt =====
-- Arrays of control blocks as lists: reading, writing and exchanging elements.
use mathlib.Core.List.{Perm}
use mathlib.Core.List.Perm
use virtual_memory_simulatio.Base.{
  ℕ, zero, suc, ◌<◌, ◌≡◌, ◌≢◌, refl, sym, ◌∙◌, ap, subst, List, [], ◌∷◌, arith, length, get_or, set,
}

module _ {ℓ} {A : Type ℓ} (d : A) where
  pub length-set : (xs : List A) (i : ℕ) (v : A) → length (set xs i v) ≡ length xs
  length-set [] i v = refl
  length-set (x ∷ xs) zero v = refl
  length-set (x ∷ xs) (suc i) v = ap suc (length-set xs i v)

  pub get_or-set : (xs : List A) (i : ℕ) (v : A) → i < length xs → get_or (set xs i v) i d ≡ v
  get_or-set [] i v h = absurd (omega (arith, h))
  get_or-set (x ∷ xs) zero v h = refl
  get_or-set (x ∷ xs) (suc i) v h = get_or-set xs i v (omega (arith, h))

  pub get_or-set_ne :
      (xs : List A) (i j : ℕ) (v : A) → j ≢ i → get_or (set xs i v) j d ≡ get_or xs j d
  get_or-set_ne [] i j v ne = refl
  get_or-set_ne (x ∷ xs) zero zero v ne = absurd (ne refl)
  get_or-set_ne (x ∷ xs) zero (suc j) v ne = refl
  get_or-set_ne (x ∷ xs) (suc i) zero v ne = refl
  get_or-set_ne (x ∷ xs) (suc i) (suc j) v ne = get_or-set_ne xs i j v (λ e. ne (ap suc e))

  -- What a write takes out and puts in.
  replaced :
      (xs : List A) (i : ℕ) (v : A) → i < length xs → Perm (get_or xs i d ∷ set xs i v) (v ∷ xs)
  replaced [] i v h = absurd (omega (arith, h))
  replaced (x ∷ xs) zero v h = Perm.swap v x xs
  replaced (x ∷ xs) (suc i) v h =
      Perm.trans (Perm.swap x (get_or xs i d) (set xs i v))
        (Perm.trans (Perm.cons x (replaced xs i v (omega (arith, h)))) (Perm.swap v x xs))

  module _ (xs : List A) (i j : ℕ) (hi : i < length xs) (hj : j < length xs) where
    -- Two elements change places.
    abbrev exchanged : List A
    exchanged = set (set xs j (get_or xs i d)) i (get_or xs j d)

    in_first : i < length (set xs j (get_or xs i d))
    in_first = omega (arith, hi, length-set xs j (get_or xs i d))

    pub length-exchanged : length exchanged ≡ length xs
    length-exchanged =
        length-set (set xs j (get_or xs i d)) i (get_or xs j d) ∙ length-set xs j (get_or xs i d)

    pub exchanged_left : get_or exchanged i d ≡ get_or xs j d
    exchanged_left = get_or-set (set xs j (get_or xs i d)) i (get_or xs j d) in_first

    pub exchanged_right : j ≢ i → get_or exchanged j d ≡ get_or xs i d
    exchanged_right ne =
        get_or-set_ne (set xs j (get_or xs i d)) i j (get_or xs j d) ne
        ∙ get_or-set xs j (get_or xs i d) hj

    pub exchanged_other : (k : ℕ) → k ≢ i → k ≢ j → get_or exchanged k d ≡ get_or xs k d
    exchanged_other k ni nj =
        get_or-set_ne (set xs j (get_or xs i d)) i k (get_or xs j d) ni
        ∙ get_or-set_ne xs j k (get_or xs i d) nj

    pub exchanged-Perm : j ≢ i → Perm exchanged xs
    exchanged-Perm ne =
        let b = set xs j (get_or xs i d) in
        let same : get_or b i d ≡ get_or xs i d =
          get_or-set_ne xs j i (get_or xs i d) (λ e. ne (sym e)) in
        let put : Perm (get_or xs i d ∷ exchanged) (get_or xs j d ∷ b) =
          subst (λ v. Perm (v ∷ exchanged) (get_or xs j d ∷ b)) same
            (replaced b i (get_or xs j d) in_first) in
        Perm.cons_inv (Perm.trans put (replaced xs j (get_or xs i d) hj))

-- ===== src/Threads/Related.antt =====
-- Relations between two stores of control blocks, block by block.
use virtual_memory_simulatio.Base.{
  ℕ, ◌≡◌, refl, sym, ◌∙◌, ap, Option, some, List, [], ◌∷◌, ◌++◌, All, Bool-cases, inl, inr, ◌==◌,
  arith,
}
use virtual_memory_simulatio.Threads.{Tcb, update}

-- `m'` has the blocks of `m`, each as `R` tells.
abbrev pub Related : (Tcb → Tcb → Type 0) → (ℕ → Option Tcb) → (ℕ → Option Tcb) → Type 0
Related R m m' = (y : ℕ) (t : Tcb) → m y ≡ some t → (u : Tcb) × (m' y ≡ some u) × R t u

-- The blocks of `xs` are there, and `P` holds of each.
abbrev pub AllAt : (ℕ → Option Tcb) → (Tcb → Type 0) → List ℕ → Type 0
AllAt m P xs = All (λ x. (t : Tcb) × (m x ≡ some t) × P t) xs

pub Related-update :
    (R : Tcb → Tcb → Type 0) (m : ℕ → Option Tcb) (p : ℕ) (t u : Tcb)
    → m p ≡ some t
    → R t u
    → ((v : Tcb) → R v v)
    → Related R m (update m p (some u))
Related-update R m p t u e r same y v held = elim (Bool-cases (y == p)) [
  | inl hit ↦
      let at : y ≡ p = ground arith in
      let eqv : some v ≡ some t = sym held ∙ ap m at ∙ e in
      let ev : v ≡ t = cc eqv in (u, rw hit refl, rw ev r)
  | inr miss ↦ (v, rw miss held, same v)
]

pub Related-trans :
    (R S T : Tcb → Tcb → Type 0) (m m' m'' : ℕ → Option Tcb)
    → ((t u v : Tcb) → R t u → S u v → T t v)
    → Related R m m'
    → Related S m' m''
    → Related T m m''
Related-trans R S T m m' m'' both h k y t held =
    let (u, e, r) = h y t held in let (v, e', q) = k y u e in (v, e', both t u v r q)

pub AllAt-Related :
    (R : Tcb → Tcb → Type 0) (P : Tcb → Type 0) (m m' : ℕ → Option Tcb) (xs : List ℕ)
    → Related R m m'
    → ((t u : Tcb) → R t u → P t → P u)
    → AllAt m P xs
    → AllAt m' P xs
AllAt-Related R P m m' [] h k a = tt
AllAt-Related R P m m' (x ∷ xs) h k ((t, e, p), a) =
    let (u, e', r) = h x t e in ((u, e', k t u r p), AllAt-Related R P m m' xs h k a)

pub AllAt-snoc :
    (m : ℕ → Option Tcb) (P : Tcb → Type 0) (x : ℕ) (xs : List ℕ)
    → AllAt m P (x ∷ xs)
    → AllAt m P (xs ++ x ∷ [])
AllAt-snoc m P x [] a = a
AllAt-snoc m P x (y ∷ ys) (here, (there, a)) = (there, AllAt-snoc m P x ys (here, a))

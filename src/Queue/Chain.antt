-- ===== src/Queue/Chain.antt =====
-- A queue as the list of its control blocks.
use virtual_memory_simulatio.Base.{
  ℕ, ◌≡◌, refl, ◌≢◌, ◌<◌, Option, some, List, [], ◌∷◌, ◌++◌, All, length, sym, ◌∙◌, ap, ◌==◌,
  Bool-cases, inl, inr, arith,
}
use virtual_memory_simulatio.Threads.Access.{update_self, update_ne}
use virtual_memory_simulatio.Threads.{Tcb, Queue, null, update, with_next}

-- From `p` the `next_tcb` pointers lead through `xs` to NULL.
abbrev pub Chain : (ℕ → Option Tcb) → ℕ → List ℕ → Type 0
Chain m p [] = p ≡ null
Chain m p (x ∷ xs) = (p ≡ x) × (0 < x) × (t : Tcb) × (m x ≡ some t) × Chain m t.next_tcb xs

abbrev pub NotIn : ℕ → List ℕ → Type 0
NotIn x xs = All (λ y. x ≢ y) xs

abbrev pub Distinct : List ℕ → Type 0
Distinct [] = Unit {0}
Distinct (x ∷ xs) = NotIn x xs × Distinct xs

abbrev pub last_of : ℕ → List ℕ → ℕ
last_of d [] = d
last_of d (x ∷ xs) = last_of x xs

-- `q` stands for `xs`, in this order: its links, its tail and its size are those of the list.
pub record IsQueue (m : ℕ → Option Tcb) (q : Queue) (xs : List ℕ) : Type 0 where
  pub chain : Chain m q.head xs
  pub distinct : Distinct xs
  pub size : q.size ≡ length xs
  pub tail : q.tail ≡ last_of null xs

-- A chain does not depend on other blocks.
pub Chain-update :
    (m : ℕ → Option Tcb) (p y : ℕ) (v : Option Tcb) (xs : List ℕ)
    → Chain m p xs
    → NotIn y xs
    → Chain (update m y v) p xs
Chain-update m p y v [] h out = h
Chain-update m p y v (x ∷ xs) (e, pos, t, held, h) (ne, out) =
    (e, pos, t, update_ne m y v x (λ q. ne (sym q)) ∙ held, Chain-update m t.next_tcb y v xs h out)

pub NotIn-last : (x y : ℕ) (ys : List ℕ) → NotIn x (y ∷ ys) → x ≢ last_of y ys
NotIn-last x y [] h = h.0
NotIn-last x y (z ∷ ys) h = NotIn-last x z ys h.1

-- The blocks of a chain are there; so is its last one.
pub Chain-last :
    (m : ℕ → Option Tcb) (p x : ℕ) (xs : List ℕ)
    → Chain m p (x ∷ xs)
    → (0 < last_of x xs) × ((t : Tcb) × (m (last_of x xs) ≡ some t))
Chain-last m p x [] (e, pos, t, held, h) = (pos, (t, held))
Chain-last m p x (y ∷ ys) (e, pos, t, held, h) = Chain-last m t.next_tcb y ys h

-- The two writes of `enqueue` append a block to a chain.
pub Chain-snoc :
    (m : ℕ → Option Tcb) (h x p : ℕ) (xs : List ℕ) (tl tp : Tcb)
    → Chain m h (x ∷ xs)
    → Distinct (x ∷ xs)
    → NotIn p (x ∷ xs)
    → 0 < p
    → m (last_of x xs) ≡ some tl
    → Chain
        (update (update m (last_of x xs) (some (with_next p tl))) p (some (with_next null tp)))
        h
        (x ∷ xs ++ p ∷ [])
Chain-snoc m h x p [] tl tp (e, pos, t, held, c) d out pp el =
    let m1 = update m x (some (with_next p tl)) in
    (
      e,
      pos,
      with_next p tl,
      update_ne m1 p (some (with_next null tp)) x (λ q. out.0 (sym q)) ∙ update_self m x _,
      (refl, pp, with_next null tp, update_self m1 p _, refl),
    )
Chain-snoc m h x p (y ∷ ys) tl tp (e, pos, t, held, c) d out pp el =
    let m1 = update m (last_of y ys) (some (with_next p tl)) in
    (
      e,
      pos,
      t,
      update_ne m1 p (some (with_next null tp)) x (λ q. out.0 (sym q))
          ∙ update_ne m (last_of y ys) (some (with_next p tl)) x (NotIn-last x y ys d.0)
          ∙ held,
      Chain-snoc m t.next_tcb y p ys tl tp c d.1 out.1 pp el,
    )

pub Distinct-snoc : (xs : List ℕ) (p : ℕ) → Distinct xs → NotIn p xs → Distinct (xs ++ p ∷ [])
Distinct-snoc [] p d out = (tt, tt)
Distinct-snoc (x ∷ xs) p d out =
    (NotIn-snoc x xs p d.0 (λ e. out.0 (sym e)), Distinct-snoc xs p d.1 out.1)
  where
    NotIn-snoc : (x : ℕ) (xs : List ℕ) (p : ℕ) → NotIn x xs → x ≢ p → NotIn x (xs ++ p ∷ [])
    NotIn-snoc x [] p h ne = (ne, tt)
    NotIn-snoc x (y ∷ ys) p h ne = (h.0, NotIn-snoc x ys p h.1 ne)

pub last_of-snoc : (d : ℕ) (xs : List ℕ) (p : ℕ) → last_of d (xs ++ p ∷ []) ≡ p
last_of-snoc d [] p = refl
last_of-snoc d (x ∷ xs) p = last_of-snoc x xs p

-- `m'` has the blocks of `xs` with the links that they have in `m`.
abbrev pub SameLinks : (ℕ → Option Tcb) → (ℕ → Option Tcb) → List ℕ → Type 0
SameLinks m m' xs =
    All (λ x. (t : Tcb) → m x ≡ some t → (u : Tcb) × (m' x ≡ some u) × (u.next_tcb ≡ t.next_tcb)) xs

Chain-frame :
    (m m' : ℕ → Option Tcb) (p : ℕ) (xs : List ℕ) → Chain m p xs → SameLinks m m' xs → Chain m' p xs
Chain-frame m m' p [] h same = h
Chain-frame m m' p (x ∷ xs) (e, pos, t, held, h) (k, same) =
    let (u, held', next) = k t held in
    (e, pos, u, held', rw next (Chain-frame m m' t.next_tcb xs h same))

pub IsQueue-frame :
    (m m' : ℕ → Option Tcb) (q : Queue) (xs : List ℕ)
    → IsQueue m q xs
    → SameLinks m m' xs
    → IsQueue m' q xs
IsQueue-frame m m' q xs is same = record {
  chain = Chain-frame m m' q.head xs is.chain same;
  distinct = is.distinct;
  size = is.size;
  tail = is.tail;
}

-- No block of `xs` is one of `ys`.
abbrev pub Apart : List ℕ → List ℕ → Type 0
Apart xs ys = All (λ x. NotIn x ys) xs

-- Blocks that are not touched keep their links.
pub SameLinks-others :
    (m m' : ℕ → Option Tcb) (xs touched : List ℕ)
    → Apart xs touched
    → ((y : ℕ) → NotIn y touched → m' y ≡ m y)
    → SameLinks m m' xs
SameLinks-others m m' [] touched d k = tt
SameLinks-others m m' (x ∷ xs) touched (dx, d) k =
    (λ t e. (t, k x dx ∙ e, refl), SameLinks-others m m' xs touched d k)

pub Apart-cons : (x : ℕ) (xs ys : List ℕ) → Apart ys xs → NotIn x ys → Apart ys (x ∷ xs)
Apart-cons x xs [] d out = tt
Apart-cons x xs (y ∷ ys) d out = ((λ e. out.0 (sym e), d.0), Apart-cons x xs ys d.1 out.1)

pub Apart-tail : (x : ℕ) (xs ys : List ℕ) → Apart ys (x ∷ xs) → Apart ys xs
Apart-tail x xs [] d = tt
Apart-tail x xs (y ∷ ys) d = (d.0.1, Apart-tail x xs ys d.1)

pub NotIn-of_Apart : (x : ℕ) (xs ys : List ℕ) → Apart ys (x ∷ xs) → NotIn x ys
NotIn-of_Apart x xs [] d = tt
NotIn-of_Apart x xs (y ∷ ys) d = (λ e. d.0.0 (sym e), NotIn-of_Apart x xs ys d.1)

pub NotIn-append : (x : ℕ) (xs : List ℕ) (p : ℕ) → NotIn x xs → x ≢ p → NotIn x (xs ++ p ∷ [])
NotIn-append x [] p h ne = (ne, tt)
NotIn-append x (y ∷ ys) p h ne = (h.0, NotIn-append x ys p h.1 ne)

pub Apart-append : (p : ℕ) (xs ys : List ℕ) → Apart ys xs → NotIn p ys → Apart ys (xs ++ p ∷ [])
Apart-append p xs [] d out = tt
Apart-append p xs (y ∷ ys) d out =
    (NotIn-append y xs p d.0 (λ e. out.0 (sym e)), Apart-append p xs ys d.1 out.1)

pub Apart-nil : (xs : List ℕ) → Apart xs []
Apart-nil [] = tt
Apart-nil (x ∷ xs) = (tt, Apart-nil xs)

-- `m'` has the blocks of `m`, each as it was but for its link.
abbrev pub LinksOnly : (ℕ → Option Tcb) → (ℕ → Option Tcb) → Type 0
LinksOnly m m' = (y : ℕ) (t : Tcb) → m y ≡ some t → (n : ℕ) × (m' y ≡ some (with_next n t))

pub update-LinksOnly :
    (m : ℕ → Option Tcb) (p n : ℕ) (tp : Tcb)
    → m p ≡ some tp
    → LinksOnly m (update m p (some (with_next n tp)))
update-LinksOnly m p n tp e y t held = elim (Bool-cases (y == p)) [
  | inl hit ↦
      let same : y ≡ p = ground arith in
      let eqt : some t ≡ some tp = sym held ∙ ap m same ∙ e in
      let et : t ≡ tp = cc eqt in (n, rw (hit, et) refl)
  | inr miss ↦ (t.next_tcb, rw miss held)
]

pub LinksOnly-trans :
    (m m' m'' : ℕ → Option Tcb) → LinksOnly m m' → LinksOnly m' m'' → LinksOnly m m''
LinksOnly-trans m m' m'' h k y t held = let (n, e) = h y t held in k y (with_next n t) e

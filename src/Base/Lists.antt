-- ===== src/Base/Lists.antt =====
-- Lists measured by native numbers, sets of numbers as lists, and the predicate `All`.
use Prim.Native.Nat.{ℕ, zero, suc, ◌+◌}
use mathlib.Core.Path.{◌≡◌, refl, subst}
use mathlib.Core.Logic.{◌⊎◌, inl, inr}
use mathlib.Core.Bool.{Bool, true, false}
use mathlib.Core.List.{List, [], ◌∷◌, ◌++◌}
use native.Mathlib.Omega.{arith}
use sakura_nexus.Base.Tests.{◌==◌, if◌then◌else◌, ==→eq, Bool-cases}

module _ {ℓ} {A : Type ℓ} where
  abbrev pub length : List A → ℕ
  length [] = 0
  length (x ∷ xs) = suc (length xs)

  abbrev pub take : ℕ → List A → List A
  take zero xs = []
  take (suc n) [] = []
  take (suc n) (x ∷ xs) = x ∷ take n xs

  abbrev pub drop : ℕ → List A → List A
  drop zero xs = xs
  drop (suc n) [] = []
  drop (suc n) (x ∷ xs) = drop n xs

  abbrev pub any : (A → Bool) → List A → Bool
  any p [] = false
  any p (x ∷ xs) = if p x then true else any p xs

  abbrev pub all : (A → Bool) → List A → Bool
  all p [] = true
  all p (x ∷ xs) = if p x then all p xs else false

  abbrev pub filter : (A → Bool) → List A → List A
  filter p [] = []
  filter p (x ∷ xs) = let rest = filter p xs in if p x then x ∷ rest else rest

  pub length-append : (xs ys : List A) → length (xs ++ ys) ≡ length xs + length ys
  length-append [] ys = omega arith
  length-append (x ∷ xs) ys = omega (arith, length-append xs ys)

-- A predicate by recursion computes to tuples, which the tactics read and build.
abbrev pub All {ℓ κ} : {A : Type ℓ} → (A → Type κ) → List A → Type κ
All P [] = Unit
All P (x ∷ xs) = P x × All P xs

pub All-append {ℓ κ} :
    {A : Type ℓ} (P : A → Type κ) (xs ys : List A) → All P xs → All P ys → All P (xs ++ ys)
All-append P [] ys hx hy = hy
All-append P (x ∷ xs) ys hx hy = (hx.0, All-append P xs ys hx.1 hy)

pub All-imp {ℓ κ ι} :
    {A : Type ℓ} (P : A → Type κ) (Q : A → Type ι) (xs : List A)
    → ((x : A) → P x → Q x)
    → All P xs
    → All Q xs
All-imp P Q [] f h = tt
All-imp P Q (x ∷ xs) f h = (f x h.0, All-imp P Q xs f h.1)

-- A set of numbers is a list; `contains`, `insert` and `delete` are the map operations of
-- `map[int64]struct{}`.
unfoldable pub contains : ℕ → List ℕ → Bool
contains a [] = false
contains a (x ∷ xs) = if x == a then true else contains a xs

unfoldable pub insert : ℕ → List ℕ → List ℕ
insert a xs = if contains a xs then xs else a ∷ xs

unfoldable pub delete : ℕ → List ℕ → List ℕ
delete a [] = []
delete a (x ∷ xs) = let rest = delete a xs in if x == a then rest else x ∷ rest

pub contains-nil : (a : ℕ) → contains a [] ≡ false
unfolding contains
contains-nil a = refl

pub contains-cons :
    (a x : ℕ) (xs : List ℕ) → contains a (x ∷ xs) ≡ (if x == a then true else contains a xs)
unfolding contains
contains-cons a x xs = refl

pub contains-insert :
    (a b : ℕ) (xs : List ℕ) → contains b (insert a xs) ≡ (if a == b then true else contains b xs)
unfolding contains insert
contains-insert a b xs = elim (Bool-cases (contains a xs)) [
  | inl old ↦ rw old (lift_old old (Bool-cases (a == b)))
  | inr new ↦ rw new
]
  where
    lift_old :
        contains a xs ≡ true
        → ((a == b) ≡ true) ⊎ ((a == b) ≡ false)
        → contains b xs ≡ (if a == b then true else contains b xs)
    lift_old old (inl e) = rw e (subst (λ (x : ℕ). contains x xs ≡ true) (==→eq a b e) old)
    lift_old old (inr n) = rw n

pub contains-delete :
    (a b : ℕ) (xs : List ℕ) → contains b (delete a xs) ≡ (if a == b then false else contains b xs)
unfolding contains delete
contains-delete a b [] = ground arith
contains-delete a b (x ∷ xs) = ground (arith, contains-delete a b xs)

pub All-contains {ℓ} :
    (P : ℕ → Type ℓ) (a : ℕ) (xs : List ℕ) → All P xs → contains a xs ≡ true → P a
unfolding contains
All-contains P a [] h c = cc
All-contains P a (x ∷ xs) h c = elim (Bool-cases (x == a)) [
  | inl e ↦ subst P (==→eq x a e) h.0
  | inr n ↦ All-contains P a xs h.1 (rw n at c)
]

pub All-insert {ℓ} : (P : ℕ → Type ℓ) (a : ℕ) (xs : List ℕ) → P a → All P xs → All P (insert a xs)
unfolding insert
All-insert P a xs p h = elim (Bool-cases (contains a xs)) [
  | inl old ↦ rw old h
  | inr new ↦ rw new (p, h)
]

pub All-delete {ℓ} : (P : ℕ → Type ℓ) (a : ℕ) (xs : List ℕ) → All P xs → All P (delete a xs)
unfolding delete
All-delete P a [] h = tt
All-delete P a (x ∷ xs) h = elim (Bool-cases (x == a)) [
  | inl e ↦ rw e (All-delete P a xs h.1)
  | inr n ↦ rw n (h.0, All-delete P a xs h.1)
]

pub All-of-insert {ℓ} : (P : ℕ → Type ℓ) (a : ℕ) (xs : List ℕ) → All P (insert a xs) → All P xs
unfolding insert
All-of-insert P a xs = elim (Bool-cases (contains a xs)) [
  | inl old ↦ rw old (λ h. h)
  | inr new ↦ rw new (λ h. h.1)
]

-- Some element satisfies the predicate.
abbrev pub Some {ℓ} : {A : Type ℓ} → (A → Type 0) → List A → Type 0
Some P [] = ⊥
Some P (x ∷ xs) = P x ⊎ Some P xs

module _ {ℓ} {A : Type ℓ} (P : A → Type 0) (p : A → Bool) where
  pub Some-of-any : (xs : List A) → ((x : A) → p x ≡ true → P x) → any p xs ≡ true → Some P xs
  Some-of-any [] f h = absurd (cc)
  Some-of-any (x ∷ xs) f h = elim (Bool-cases (p x)) [
    | inl e ↦ inl (f x e)
    | inr e ↦ inr (Some-of-any xs f (rw e at h))
  ]

  pub any-of-Some : (xs : List A) → ((x : A) → P x → p x ≡ true) → Some P xs → any p xs ≡ true
  any-of-Some [] f h = absurd h
  any-of-Some (x ∷ xs) f (inl h) = rw (f x h)
  any-of-Some (x ∷ xs) f (inr h) = elim (Bool-cases (p x)) [
    | inl e ↦ rw e
    | inr e ↦ rw e (any-of-Some xs f h)
  ]

pub All-not-of-any {ℓ} :
    {A : Type ℓ} (P : A → Type 0) (p : A → Bool) (xs : List A)
    → ((x : A) → P x → p x ≡ true)
    → any p xs ≡ false
    → All (λ x. ¬ P x) xs
All-not-of-any P p [] f h = tt
All-not-of-any P p (x ∷ xs) f h = elim (Bool-cases (p x)) [
  | inl e ↦ absurd (cc (e, h))
  | inr e ↦ (λ q. cc (f x q, e), All-not-of-any P p xs f (rw e at h))
]

pub any-of-All-not {ℓ} :
    {A : Type ℓ} (P : A → Type 0) (p : A → Bool) (xs : List A)
    → ((x : A) → p x ≡ true → P x)
    → All (λ x. ¬ P x) xs
    → any p xs ≡ false
any-of-All-not P p [] f h = refl
any-of-All-not P p (x ∷ xs) f h = elim (Bool-cases (p x)) [
  | inl e ↦ absurd (h.0 (f x e))
  | inr e ↦ rw e (any-of-All-not P p xs f h.1)
]

pub All-of-all {ℓ} :
    {A : Type ℓ} (P : A → Type 0) (p : A → Bool) (xs : List A)
    → ((x : A) → p x ≡ true → P x)
    → all p xs ≡ true
    → All P xs
All-of-all P p [] f h = tt
All-of-all P p (x ∷ xs) f h = elim (Bool-cases (p x)) [
  | inl e ↦ (f x e, All-of-all P p xs f (rw e at h))
  | inr e ↦ absurd (cc (e, h))
]

pub all-of-All {ℓ} :
    {A : Type ℓ} (P : A → Type 0) (p : A → Bool) (xs : List A)
    → ((x : A) → P x → p x ≡ true)
    → All P xs
    → all p xs ≡ true
all-of-All P p [] f h = refl
all-of-All P p (x ∷ xs) f h = rw (f x h.0) (all-of-All P p xs f h.1)

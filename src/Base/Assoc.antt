-- ===== src/Base/Assoc.antt =====
-- Go maps as association lists over a type of keys with a decided equality. Where the program
-- ranges over a map the order is that of the list; nothing that is stated depends on it.
use sakura_nexus.Base.{
  ℕ, ◌≡◌, ◌↔◌, Bool, true, Option, none, some, List, [], ◌∷◌, arith, if◌then◌else◌, ◌==◌, refl,
  ==→eq, ==-refl, subst,
}
use sakura_nexus.Base.Text.{Text, text_eq, text_eq→eq, text_eq_refl}

pub record Eq {ℓ} (A : Type ℓ) : Type ℓ where
  pub beq : A → A → Bool
  pub beq_iff : (a b : A) → (beq a b ≡ true) ↔ (a ≡ b)

pub ℕ-beq_iff : (a b : ℕ) → ((a == b) ≡ true) ↔ (a ≡ b)
ℕ-beq_iff a b = (==→eq a b, λ e. subst (λ (x : ℕ). (a == x) ≡ true) e (==-refl a))

pub Text-beq_iff : (a b : Text) → (text_eq a b ≡ true) ↔ (a ≡ b)
Text-beq_iff a b =
    (text_eq→eq a b, λ e. subst (λ (x : Text). text_eq a x ≡ true) e (text_eq_refl a))

instance abbrev pub nat_eq : Eq ℕ
nat_eq = record { beq = ◌==◌; beq_iff = ℕ-beq_iff }

instance abbrev pub text_instance : Eq Text
text_instance = record { beq = text_eq; beq_iff = Text-beq_iff }

module _ {ℓ κ} {K : Type ℓ} {V : Type κ} ⦃e : Eq K⦄ where
  unfoldable pub lookup : K → List (K × V) → Option V
  lookup k [] = none
  lookup k ((j, v) ∷ m) = if e.beq j k then some v else lookup k m

  -- `m[k] = v`
  unfoldable pub put : K → V → List (K × V) → List (K × V)
  put k v [] = (k, v) ∷ []
  put k v ((j, w) ∷ m) = if e.beq j k then (k, v) ∷ m else (j, w) ∷ put k v m

  -- `delete(m, k)`
  unfoldable pub remove : K → List (K × V) → List (K × V)
  remove k [] = []
  remove k ((j, w) ∷ m) = let rest = remove k m in if e.beq j k then rest else (j, w) ∷ rest

  pub lookup-put :
      (k j : K) (v : V) (m : List (K × V))
      → lookup j (put k v m) ≡ (if e.beq k j then some v else lookup j m)
  unfolding lookup put
  lookup-put k j v [] = refl
  lookup-put k j v ((i, w) ∷ m) =
      ground (arith, e.beq_iff k j, e.beq_iff i k, e.beq_iff i j, lookup-put k j v m)

  pub lookup-remove :
      (k j : K) (m : List (K × V))
      → lookup j (remove k m) ≡ (if e.beq k j then none else lookup j m)
  unfolding lookup remove
  lookup-remove k j [] = ground arith
  lookup-remove k j ((i, w) ∷ m) =
      ground (arith, e.beq_iff k j, e.beq_iff i k, e.beq_iff i j, lookup-remove k j m)

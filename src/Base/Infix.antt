-- ===== src/Base/Infix.antt =====
-- `strings.HasPrefix` and `strings.Contains` decide that one text begins, or stands in, another.
use sakura_nexus.Base.{
  ◌≡◌, refl, ap, true, [], ◌∷◌, ◌++◌, Bool-cases, inl, inr, ◌==◌, ==→eq, ==-refl,
}
use sakura_nexus.Base.Text.{Text, has_prefix, contains_text}

abbrev pub IsPrefix : Text → Text → Type 0
IsPrefix p s = (rest : Text) × (s ≡ p ++ rest)

abbrev pub IsInfix : Text → Text → Type 0
IsInfix p s = (before : Text) × (rest : Text) × (s ≡ before ++ (p ++ rest))

pub IsPrefix-of-has_prefix : (s p : Text) → has_prefix s p ≡ true → IsPrefix p s
unfolding has_prefix
IsPrefix-of-has_prefix s [] h = (s, refl)
IsPrefix-of-has_prefix [] (p ∷ ps) h = cc
IsPrefix-of-has_prefix (x ∷ xs) (p ∷ ps) h = elim (Bool-cases (x == p)) [
  | inl e ↦
      let (rest, eq) = IsPrefix-of-has_prefix xs ps (rw e at h) in (rest, cc (eq, ==→eq x p e))
  | inr e ↦ cc (e, h)
]

pub has_prefix-append : (p rest : Text) → has_prefix (p ++ rest) p ≡ true
unfolding has_prefix
has_prefix-append [] [] = refl
has_prefix-append [] (x ∷ rest) = refl
has_prefix-append (x ∷ p) rest = rw ==-refl (has_prefix-append p rest)

pub IsInfix-of-contains : (s p : Text) → contains_text s p ≡ true → IsInfix p s
unfolding contains_text
IsInfix-of-contains [] p h = let (rest, e) = IsPrefix-of-has_prefix [] p h in ([], rest, e)
IsInfix-of-contains (x ∷ xs) p h = elim (Bool-cases (has_prefix (x ∷ xs) p)) [
  | inl e ↦ let (rest, eq) = IsPrefix-of-has_prefix (x ∷ xs) p e in ([], rest, eq)
  | inr e ↦
      let (before, rest, eq) = IsInfix-of-contains xs p (rw e at h) in
      (x ∷ before, rest, ap (λ t. x ∷ t) eq)
]

contains_of_prefix : (s p : Text) → has_prefix s p ≡ true → contains_text s p ≡ true
unfolding contains_text
contains_of_prefix [] p h = h
contains_of_prefix (x ∷ xs) p h = rw h

contains_text-append : (before p rest : Text) → contains_text (before ++ (p ++ rest)) p ≡ true
unfolding contains_text
contains_text-append [] p rest = contains_of_prefix (p ++ rest) p (has_prefix-append p rest)
contains_text-append (x ∷ before) p rest =
    elim (Bool-cases (has_prefix (x ∷ (before ++ (p ++ rest))) p)) [
      | inl e ↦ rw e
      | inr e ↦ rw e (contains_text-append before p rest)
    ]

pub contains-of-IsInfix : (s p : Text) → IsInfix p s → contains_text s p ≡ true
contains-of-IsInfix s p (before, rest, e) = rw e (contains_text-append before p rest)

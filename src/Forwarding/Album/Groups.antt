-- ===== src/Forwarding/Album/Groups.antt =====
-- The map of groups (internal/forwarding/album.go): counting its messages, unique keys, and
-- predicates that all groups satisfy.
use sakura_nexus.Base.{
  ℕ, ◌+◌, ◌≡◌, ◌≢◌, inl, inr, Bool, Option, none, some, List, [], ◌∷◌, ◌++◌, ◌==◌, All,
  if◌then◌else◌, Bool-cases, arith, refl, ==→eq, subst,
}
use sakura_nexus.Base.Assoc.{lookup, put, remove, nat_eq}
use sakura_nexus.Domain.{ChannelMessage}
use sakura_nexus.Forwarding.Album.{AlbumState, Groups, ms}

-- How many messages satisfy a test. Lists that agree on this for every test hold the same messages.
abbrev pub count : (ChannelMessage → Bool) → List ChannelMessage → ℕ
count p [] = 0
count p (m ∷ ms) = (if p m then 1 else 0) + count p ms

abbrev pub count_all : (ChannelMessage → Bool) → List (List ChannelMessage) → ℕ
count_all p [] = 0
count_all p (g ∷ gs) = count p g + count_all p gs

abbrev pub count_groups : (ChannelMessage → Bool) → Groups → ℕ
count_groups p [] = 0
count_groups p ((gid, st) ∷ gs) = count p st.msgs + count_groups p gs

abbrev pub count_ready : (ChannelMessage → Bool) → Option (List ChannelMessage) → ℕ
count_ready p none = 0
count_ready p (some g) = count p g

pub count-append :
    (p : ChannelMessage → Bool) (xs ys : List ChannelMessage)
    → count p (xs ++ ys) ≡ count p xs + count p ys
count-append p [] ys = omega arith
count-append p (x ∷ xs) ys = omega (arith, count-append p xs ys)

-- A key occurs once.
abbrev pub Absent : ℕ → Groups → Type 0
Absent k [] = Unit
Absent k ((j, st) ∷ gs) = (j ≢ k) × Absent k gs

abbrev pub HasUniqueKeys : Groups → Type 0
HasUniqueKeys [] = Unit
HasUniqueKeys ((j, st) ∷ gs) = Absent j gs × HasUniqueKeys gs

pub lookup-Absent : (k : ℕ) (gs : Groups) → Absent k gs → lookup k gs ≡ none
unfolding lookup
lookup-Absent k [] h = refl
lookup-Absent k ((j, st) ∷ gs) h = ground (arith, lookup-Absent k gs h.1, h.0)

pub Absent-of-lookup : (k : ℕ) (gs : Groups) → lookup k gs ≡ none → Absent k gs
unfolding lookup
Absent-of-lookup k [] h = tt
Absent-of-lookup k ((j, st) ∷ gs) h = elim (Bool-cases (j == k)) [
  | inl e ↦ cc (h, e)
  | inr e ↦ (ground arith, Absent-of-lookup k gs (rw e at h))
]

Absent-remove : (k j : ℕ) (gs : Groups) → Absent k gs → Absent k (remove j gs)
unfolding remove
Absent-remove k j [] h = tt
Absent-remove k j ((i, st) ∷ gs) h = elim (Bool-cases (i == j)) [
  | inl e ↦ rw e (Absent-remove k j gs h.1)
  | inr e ↦ rw e (h.0, Absent-remove k j gs h.1)
]

Absent-put :
    (k j : ℕ) (st : AlbumState) (gs : Groups) → j ≢ k → Absent k gs → Absent k (put j st gs)
unfolding put
Absent-put k j st [] n h = (n, tt)
Absent-put k j st ((i, s) ∷ gs) n h = elim (Bool-cases (i == j)) [
  | inl e ↦ rw e (n, h.1)
  | inr e ↦ rw e (h.0, Absent-put k j st gs n h.1)
]

pub HasUniqueKeys-remove : (k : ℕ) (gs : Groups) → HasUniqueKeys gs → HasUniqueKeys (remove k gs)
unfolding remove
HasUniqueKeys-remove k [] h = tt
HasUniqueKeys-remove k ((i, st) ∷ gs) h = elim (Bool-cases (i == k)) [
  | inl e ↦ rw e (HasUniqueKeys-remove k gs h.1)
  | inr e ↦ rw e (Absent-remove i k gs h.0, HasUniqueKeys-remove k gs h.1)
]

pub HasUniqueKeys-put :
    (k : ℕ) (st : AlbumState) (gs : Groups) → HasUniqueKeys gs → HasUniqueKeys (put k st gs)
unfolding put
HasUniqueKeys-put k st [] h = (tt, tt)
HasUniqueKeys-put k st ((i, s) ∷ gs) h = elim (Bool-cases (i == k)) [
  | inl e ↦ rw e (rw (← ==→eq i k e) (h.0, h.1))
  | inr e ↦ rw e (Absent-put i k st gs (ground arith) h.0, HasUniqueKeys-put k st gs h.1)
]

pub count-remove-Absent :
    (p : ChannelMessage → Bool) (k : ℕ) (gs : Groups)
    → Absent k gs
    → count_groups p (remove k gs) ≡ count_groups p gs
unfolding remove
count-remove-Absent p k [] h = refl
count-remove-Absent p k ((i, s) ∷ gs) h = elim (Bool-cases (i == k)) [
  | inl e ↦ absurd (h.0 (==→eq i k e))
  | inr e ↦ rw e (omega (arith, count-remove-Absent p k gs h.1))
]

pub count-remove :
    (p : ChannelMessage → Bool) (k : ℕ) (st : AlbumState) (gs : Groups)
    → HasUniqueKeys gs
    → lookup k gs ≡ some st
    → count p st.msgs + count_groups p (remove k gs) ≡ count_groups p gs
unfolding remove lookup
count-remove p k st [] h e = cc
count-remove p k st ((i, s) ∷ gs) h e = elim (Bool-cases (i == k)) [
  | inl same ↦
      let found : s ≡ st = ground (arith, e, same) in
      rw (same, ← found) (omega (arith, count-remove-Absent p k gs (rw (==→eq i k same) at h.0)))
  | inr other ↦ rw other (omega (arith, count-remove p k st gs h.1 (rw other at e)))
]

pub count-put :
    (p : ChannelMessage → Bool) (k : ℕ) (st st' : AlbumState) (gs : Groups)
    → lookup k gs ≡ some st
    → count p st.msgs + count_groups p (put k st' gs) ≡ count_groups p gs + count p st'.msgs
unfolding put lookup
count-put p k st st' [] e = cc
count-put p k st st' ((i, s) ∷ gs) e = elim (Bool-cases (i == k)) [
  | inl same ↦ let found : s ≡ st = ground (arith, e, same) in rw (same, ← found) (omega arith)
  | inr other ↦ rw other (omega (arith, count-put p k st st' gs (rw other at e)))
]

pub count-put_new :
    (p : ChannelMessage → Bool) (k : ℕ) (st : AlbumState) (gs : Groups)
    → Absent k gs
    → count_groups p (put k st gs) ≡ count_groups p gs + count p st.msgs
unfolding put
count-put_new p k st [] h = omega arith
count-put_new p k st ((i, s) ∷ gs) h = elim (Bool-cases (i == k)) [
  | inl same ↦ absurd (h.0 (==→eq i k same))
  | inr other ↦ rw other (omega (arith, count-put_new p k st gs h.1))
]

module _ {ℓ} (P : ℕ × AlbumState → Type ℓ) where
  pub All-lookup :
      (k : ℕ) (st : AlbumState) (gs : Groups) → All P gs → lookup k gs ≡ some st → P (k, st)
  unfolding lookup
  All-lookup k st [] h e = cc
  All-lookup k st ((i, s) ∷ gs) h e = elim (Bool-cases (i == k)) [
    | inl same ↦
        let found : s ≡ st = ground (arith, e, same) in
        subst (λ x. P (x, st)) (==→eq i k same) (subst (λ x. P (i, x)) found h.0)
    | inr other ↦ All-lookup k st gs h.1 (rw other at e)
  ]

  pub All-put : (k : ℕ) (st : AlbumState) (gs : Groups) → P (k, st) → All P gs → All P (put k st gs)
  unfolding put
  All-put k st [] p h = (p, tt)
  All-put k st ((i, s) ∷ gs) p h = elim (Bool-cases (i == k)) [
    | inl same ↦ rw same (p, h.1)
    | inr other ↦ rw other (h.0, All-put k st gs p h.1)
  ]

  pub All-remove : (k : ℕ) (gs : Groups) → All P gs → All P (remove k gs)
  unfolding remove
  All-remove k [] h = tt
  All-remove k ((i, s) ∷ gs) h = elim (Bool-cases (i == k)) [
    | inl same ↦ rw same (All-remove k gs h.1)
    | inr other ↦ rw other (h.0, All-remove k gs h.1)
  ]

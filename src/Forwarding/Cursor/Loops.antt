-- ===== src/Forwarding/Cursor/Loops.antt =====
-- The loops of `terminal` in internal/forwarding/cursor.go: the ascending insertion, the search for
-- the least unresolved id, and the popping of terminals below it.
use sakura_nexus.Base.{
  ℕ, ◌≤◌, ◌<◌, ◌≡◌, ◌⊎◌, inl, inr, refl, All, All-imp, contains, contains-nil, contains-cons, Bool,
  true, false, Option, none, some, List, [], ◌∷◌, Bool-cases, subst, ==→eq, ==-refl, ltb, ◌==◌,
  if◌then◌else◌, arith,
}
use sakura_nexus.Forwarding.Cursor.{insert_terminal, min_unresolved, below_min, pop_terminals}

-- Strictly ascending.
abbrev pub IsAscending : List ℕ → Type 0
IsAscending [] = Unit
IsAscending (t ∷ ts) = All (λ x. t < x) ts × IsAscending ts

pub All-lt_trans : (a b : ℕ) (xs : List ℕ) → a < b → All (λ x. b < x) xs → All (λ x. a < x) xs
All-lt_trans a b xs h = All-imp _ _ xs (λ x p. omega arith)

pub All-insert_terminal {ℓ} :
    (P : ℕ → Type ℓ) (id : ℕ) (ts : List ℕ) → P id → All P ts → All P (insert_terminal id ts)
unfolding insert_terminal
All-insert_terminal P id [] p h = (p, tt)
All-insert_terminal P id (t ∷ ts) p h = elim (Bool-cases (ltb t id)) [
  | inl e ↦ rw e (h.0, All-insert_terminal P id ts p h.1)
  | inr e ↦ elim (Bool-cases (t == id)) [
    | inl same ↦ rw (e, same) h
    | inr other ↦ rw (e, other) (p, h)
  ]
]

pub All-of-insert_terminal {ℓ} :
    (P : ℕ → Type ℓ) (id : ℕ) (ts : List ℕ) → All P (insert_terminal id ts) → P id × All P ts
unfolding insert_terminal
All-of-insert_terminal P id [] = λ h. h
All-of-insert_terminal P id (t ∷ ts) = elim (Bool-cases (ltb t id)) [
  | inl e ↦ rw e (λ h. let rest = All-of-insert_terminal P id ts h.1 in (rest.0, (h.0, rest.1)))
  | inr e ↦ elim (Bool-cases (t == id)) [
    | inl same ↦ rw (e, same) (λ h. (subst P (==→eq t id same) h.0, h))
    | inr other ↦ rw (e, other) (λ h. h)
  ]
]

pub contains-insert_terminal :
    (x id : ℕ) (ts : List ℕ)
    → contains x (insert_terminal id ts) ≡ (if id == x then true else contains x ts)
unfolding insert_terminal
contains-insert_terminal x id [] = ground (arith, contains-cons x id [], contains-nil x)
contains-insert_terminal x id (t ∷ ts) = ground (
  arith,
  contains-insert_terminal x id ts,
  contains-cons x t ts,
  contains-cons x t (insert_terminal id ts),
  contains-cons x id (t ∷ ts),
)

pub insert_terminal-IsAscending :
    (id : ℕ) (ts : List ℕ) → IsAscending ts → IsAscending (insert_terminal id ts)
unfolding insert_terminal
insert_terminal-IsAscending id [] h = (tt, tt)
insert_terminal-IsAscending id (t ∷ ts) h = elim (Bool-cases (ltb t id)) [
  | inl e ↦ rw e (
    All-insert_terminal (λ x. t < x) id ts (ground arith) h.0,
    insert_terminal-IsAscending id ts h.1,
  )
  | inr e ↦ elim (Bool-cases (t == id)) [
    | inl same ↦ rw (e, same) h
    | inr other ↦ rw (e, other) ((ground arith, All-lt_trans id t ts (ground arith) h.0), h)
  ]
]

pub min_unresolved_sound :
    (least : Option ℕ) (us : List ℕ) (t : ℕ)
    → below_min (min_unresolved least us) t ≡ true
    → (below_min least t ≡ true) × All (λ u. t < u) us
unfolding min_unresolved below_min
min_unresolved_sound least [] t h = (h, tt)
min_unresolved_sound none (u ∷ us) t h =
    let rest = min_unresolved_sound (some u) us t h in (refl, (ground arith, rest.1))
min_unresolved_sound (some m) (u ∷ us) t h =
    let rest = min_unresolved_sound (some (if ltb u m then u else m)) us t h in
    (ground arith, (ground arith, rest.1))

pub min_unresolved_complete :
    (least : Option ℕ) (us : List ℕ) (t : ℕ)
    → below_min least t ≡ true
    → All (λ u. t < u) us
    → below_min (min_unresolved least us) t ≡ true
unfolding min_unresolved below_min
min_unresolved_complete least [] t h a = h
min_unresolved_complete none (u ∷ us) t h a =
    min_unresolved_complete (some u) us t (ground arith) a.1
min_unresolved_complete (some m) (u ∷ us) t h a =
    min_unresolved_complete (some (if ltb u m then u else m)) us t (ground arith) a.1

-- What the popping loop returns from a cursor below every held terminal.
pub record Popped (least : Option ℕ) (c : ℕ) (ts : List ℕ) (adv : Bool) (out : ℕ × List ℕ × Bool)
    : Type 0 where
  pub forward : c ≤ out.0
  pub above : All (λ x. out.0 < x) out.1
  pub ascending : IsAscending out.1
  pub reached : (out.0 ≡ c) ⊎ ((below_min least out.0 ≡ true) × (contains out.0 ts ≡ true))
  pub maximal : All (λ x. below_min least x ≡ true → x ≤ out.0) ts
  pub held : All (λ x. below_min least x ≡ false) out.1
  pub kept : All (λ x. (x ≤ out.0) ⊎ (contains x out.1 ≡ true)) ts
  pub bounded : (m : ℕ) → c ≤ m → All (λ x. x ≤ m) ts → (out.0 ≤ m) × All (λ x. x ≤ m) out.1
  pub flag : out.2 ≡ (if adv then true else ltb c out.0)

below_min_down :
    (least : Option ℕ) (a b : ℕ) → a < b → below_min least a ≡ false → below_min least b ≡ false
unfolding below_min
below_min_down none a b h e = e
below_min_down (some m) a b h e = ground arith

All-self : (xs : List ℕ) (c : ℕ) → All (λ x. (x ≤ c) ⊎ (contains x xs ≡ true)) xs
All-self [] c = tt
All-self (x ∷ xs) c = (
  inr (rw (contains-cons, ==-refl)),
  All-imp _ _ xs (λ y h. ground (arith, h, contains-cons y x xs)) (All-self xs c),
)

pub pop_terminals-Popped :
    (least : Option ℕ) (c : ℕ) (ts : List ℕ) (adv : Bool)
    → All (λ x. c < x) ts
    → IsAscending ts
    → Popped least c ts adv (pop_terminals least c ts adv)
unfolding pop_terminals
pop_terminals-Popped least c [] adv h a = record {
  forward = omega arith;
  above = tt;
  ascending = tt;
  reached = inl refl;
  maximal = tt;
  held = tt;
  kept = tt;
  bounded = λ m h a. (h, tt);
  flag = ground arith;
}
pop_terminals-Popped least c (t ∷ ts) adv h a = elim (Bool-cases (below_min least t)) [
  | inl e ↦ rw e (popped e (pop_terminals-Popped least t ts true a.0 a.1))
  | inr e ↦ rw e (record {
    forward = omega arith;
    above = h;
    ascending = a;
    reached = inl refl;
    maximal = (λ b. cc, All-imp _ _ ts (λ x p b. cc (below_min_down least t x p e)) a.0);
    held = (e, All-imp _ _ ts (λ x p. below_min_down least t x p e) a.0);
    kept = All-self (t ∷ ts) c;
    bounded = λ m h a. (h, a);
    flag = ground arith;
  })
]
  where
    popped :
        below_min least t ≡ true
        → Popped least t ts true (pop_terminals least t ts true)
        → Popped least c (t ∷ ts) adv (pop_terminals least t ts true)
    popped e p = record {
      forward = omega (arith, p.forward, h.0);
      above = p.above;
      ascending = p.ascending;
      reached = ground (arith, p.reached, contains-cons (pop_terminals least t ts true).0 t ts, e);
      maximal = (λ b. p.forward, p.maximal);
      held = p.held;
      kept = (inl p.forward, p.kept);
      bounded = λ m h a. p.bounded m a.0 a.1;
      flag = ground (arith, p.flag, p.forward, h.0);
    }

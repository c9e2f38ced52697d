-- ===== src/App/Lifecycle/Closing.antt =====
-- internal/app/lifecycle.go, `closeAll`: the order in which the services are shut down. What was shut
-- down is kept beside the world, the latest first.
use sakura_nexus.Base.{
  ℕ, zero, suc, ◌≤◌, ◌≡◌, refl, ap, sym, ◌∙◌, Bool, Option, some, List, [], ◌∷◌, ◌++◌, append_assoc,
  append-nil, length, take, arith,
}
use sakura_nexus.App.Lifecycle.{get_elem?, close_down, close_all}

abbrev pub recorded {ℓ} :
    {W Service : Type ℓ}
    → (Service → W → Bool × W)
    → Service
    → W × List Service
    → Bool × (W × List Service)
recorded shutdown s (w, log) = let (fine, w') = shutdown s w in (fine, (w', s ∷ log))

module _ {W Service : Type 0} (shutdown : Service → W → Bool × W) where
  abbrev look_up : List Service → ℕ → Option Service
  look_up = get_elem? (recorded shutdown)

  take-suc :
      (regs : List Service) (i : ℕ) (s : Service)
      → look_up regs i ≡ some s
      → take (suc i) regs ≡ take i regs ++ s ∷ []
  unfolding get_elem?
  take-suc [] i s h = absurd (ground (arith, h))
  take-suc (r ∷ regs) zero s h = ground (arith, h)
  take-suc (r ∷ regs) (suc i) s h = ap (λ t. r ∷ t) (take-suc regs i s h)

  get_elem?-some :
      (regs : List Service) (i : ℕ)
      → suc i ≤ length regs
      → (s : Service) × (look_up regs i ≡ some s)
  unfolding get_elem?
  get_elem?-some [] i h = absurd (omega arith)
  get_elem?-some (r ∷ regs) zero h = (r, refl)
  get_elem?-some (r ∷ regs) (suc i) h = get_elem?-some regs i (omega arith)

  close_down-log :
      (regs : List Service) (i : ℕ) (w : W) (log : List Service)
      → i ≤ length regs
      → (close_down (recorded shutdown) regs i (w, log)).1 ≡ take i regs ++ log
  unfolding close_down
  close_down-log regs zero w log h = refl
  close_down-log regs (suc i) w log h =
      let (s, at) = get_elem?-some regs i h in
      rw (at, close_down, take-suc regs i s at)
        (close_down-log regs i (shutdown s w).1 (s ∷ log) (omega arith)
          ∙ sym (append_assoc (take i regs) (s ∷ []) log))

  take-length : (regs : List Service) → take (length regs) regs ≡ regs
  take-length [] = refl
  take-length (r ∷ regs) = ap (λ t. r ∷ t) (take-length regs)

  -- Every service is shut down once, from the one that was registered last to the first, whether or
  -- not the others fail: the log, whose latest entry stands first, is the list of the services.
  pub close_all-log :
      (regs : List Service) (w : W) → (close_all (recorded shutdown) regs (w, [])).1 ≡ regs
  unfolding close_all
  close_all-log regs w =
      close_down-log regs (length regs) w [] (omega arith)
      ∙ append-nil (take (length regs) regs)
      ∙ take-length regs

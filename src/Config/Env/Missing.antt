-- ===== src/Config/Env/Missing.antt =====
-- internal/config/env.go: which required variables the check of `Load` names.
use sakura_nexus.Base.{
  ◌≡◌, ◌≢◌, ◌↔◌, ◌⊎◌, inl, inr, refl, ap, true, false, not, List, [], ◌∷◌, Some, arith, Bool-cases,
}
use sakura_nexus.Base.Text.{Text, is_empty}
use sakura_nexus.Config.Env.{
  Env, Required, mysql_password_name, api_hash_name, api_id_name, bot_token_name,
  webui_password_name, required, satisfied, missing_of,
}

abbrev pub IsAmong : Required → List Required → Type 0
IsAmong r rs = Some (λ x. x ≡ r) rs

pub is_required : (r : Required) → IsAmong r required
is_required mysql_password_name = inl refl
is_required api_hash_name = inr (inl refl)
is_required api_id_name = inr (inr (inl refl))
is_required bot_token_name = inr (inr (inr (inl refl)))
is_required webui_password_name = inr (inr (inr (inr (inl refl))))

pub List-cases :
    (rs : List Required) → (rs ≡ []) ⊎ ((q : Required) × (qs : List Required) × (rs ≡ q ∷ qs))
List-cases [] = inl refl
List-cases (q ∷ qs) = inr (q, qs, refl)

pub missing_of-IsAmong :
    (e : Env) (r : Required) (rs : List Required)
    → IsAmong r (missing_of e rs) ↔ (IsAmong r rs × (satisfied e r ≡ false))
unfolding missing_of
missing_of-IsAmong e r [] = (λ h. absurd h, λ h. absurd h.0)
missing_of-IsAmong e r (q ∷ rs) =
    let ih = missing_of-IsAmong e r rs in
    elim (Bool-cases (satisfied e q)) [
      | inl fine ↦
          rw (fine, missing_of)
            (
              λ h. let (among, bad) = ih.0 h in (inr among, bad),
              λ (there, bad). elim there [
                | inl here ↦ absurd (ground (arith, ap (satisfied e) here, fine, bad))
                | inr among ↦ ih.1 (among, bad)
              ],
            )
      | inr lacking ↦
          rw (lacking, missing_of)
            (
              λ h. elim h [
                | inl here ↦ (inl here, ground (arith, ap (satisfied e) here, lacking))
                | inr among ↦ let (a, bad) = ih.0 among in (inr a, bad)
              ],
              λ (there, bad). elim there [
                | inl here ↦ inl here
                | inr among ↦ inr (ih.1 (among, bad))
              ],
            )
    ]

pub is_empty-nil : (t : Text) → is_empty t ≡ true → t ≡ []
unfolding is_empty
is_empty-nil [] h = refl
is_empty-nil (c ∷ t) h = absurd (ground (arith, h))

pub is_empty-cons : (t : Text) → is_empty t ≡ false → t ≢ []
unfolding is_empty
is_empty-cons [] h e = ground (arith, h)
is_empty-cons (c ∷ t) h e = ground (arith, e)

pub not_empty : (t : Text) → (not (is_empty t) ≡ true) ↔ (t ≢ [])
unfolding is_empty
not_empty [] = (λ h. absurd (ground (arith, h)), λ n. absurd (n refl))
not_empty (c ∷ t) = (λ h e. ground (arith, e), λ n. refl)

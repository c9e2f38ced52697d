-- ===== src/Forwarding/Footer/Laws.antt =====
-- What a footer renders to (internal/forwarding/footer.go).
use sakura_nexus.Base.{
  zero, ◌≡◌, refl, ap, none, [], ◌∷◌, All, All-imp, append-nil, Bool-cases, inl, inr,
}
use sakura_nexus.Base.Text.{Text, has_prefix}
use sakura_nexus.Base.Infix.{IsInfix, IsPrefix, IsPrefix-of-has_prefix}
use sakura_nexus.Forwarding.Footer.{
  FooterContext, Pairs, default_footer_template, source_link, find_pair, replace, placeholders,
  render_footer,
}

-- The default footer is the link to the source message and nothing else.
pub render_default_footer :
    (fc : FooterContext)
    → render_footer default_footer_template fc
      ≡ source_link fc.source fc.source_username fc.message_id
unfolding render_footer default_footer_template has_prefix
render_default_footer fc = append-nil _

find_pair-none :
    (pairs : Pairs) (s : Text) → All (λ p. ¬ IsPrefix p.0 s) pairs → find_pair pairs s ≡ none
unfolding find_pair
find_pair-none [] s h = refl
find_pair-none ((old, new) ∷ pairs) s h = elim (Bool-cases (has_prefix s old)) [
  | inl e ↦ absurd (h.0 (IsPrefix-of-has_prefix s old e))
  | inr e ↦ rw e (find_pair-none pairs s h.1)
]

replace-none :
    (pairs : Pairs) (s : Text) → All (λ p. ¬ IsInfix p.0 s) pairs → replace pairs zero s ≡ s
unfolding replace
replace-none pairs [] h = refl
replace-none pairs (c ∷ s) h =
    rw (find_pair-none pairs (c ∷ s) (All-imp _ _ pairs (λ p n q. n ([], q.0, q.1)) h), replace)
      (ap (λ t. c ∷ t)
        (replace-none pairs s
          (All-imp _ _ pairs (λ p n q. n (c ∷ q.0, q.1, ap (λ t. c ∷ t) q.2)) h)))

-- A template in which no known placeholder stands is left as it is: unknown placeholders stay
-- visible.
pub render_unknown :
    (template : Text) (fc : FooterContext)
    → All (λ p. ¬ IsInfix p.0 template) (placeholders fc)
    → render_footer template fc ≡ template
unfolding render_footer
render_unknown template fc h = replace-none (placeholders fc) template h

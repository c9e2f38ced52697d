-- ===== src/Forwarding/Filters/Sound.antt =====
-- The filter chain decides a condition that is stated without it (internal/forwarding/filters.go).
use sakura_nexus.Base.{
  ◌≡◌, ◌≢◌, ◌↔◌, ◌⊎◌, inl, inr, refl, Bool, true, false, none, some, List, [], ◌∷◌, any, All, Some,
  Some-of-any, any-of-Some, All-not-of-any, any-of-All-not, All-of-all, all-of-All, arith,
  Bool-cases, Option-cases,
}
use sakura_nexus.Base.Text.{Text, text, text_eq→eq, text_eq_refl, is_empty}
use sakura_nexus.Base.Infix.{IsInfix, IsInfix-of-contains, contains-of-IsInfix}
use sakura_nexus.Domain.{ForwardRule}
use sakura_nexus.Forwarding.Filters.{
  TextLibrary, FilterView, lower, word_hits, pattern_hits, matches, check_keywords, check_patterns,
  find_word, find_pattern, check_blacklists, is_allowed, check_media_types, should_forward,
}

module _ (lib : TextLibrary) where
  -- The word is not empty and stands in the text, whatever the case of either.
  abbrev pub Hits : Text → Text → Type 0
  Hits body word = (word ≢ []) × IsInfix (lower lib word) (lower lib body)

  -- The expression compiles and matches the text.
  abbrev pub Matches : Text → Text → Type 0
  Matches body p = (re : Text → Bool) × (lib.compile p ≡ some re) × (re body ≡ true)

  -- The type is in the list, whatever the case of the entries.
  abbrev pub Allows : List Text → Text → Type 0
  Allows allowed t = Some (λ a. lower lib a ≡ t) allowed

  -- A message that shows some media passes `any`, one without media wants `text`, and of any other
  -- every type has to be allowed.
  pub record AllowsMedia (allowed types : List Text) : Type 0 where
    pub under_any : Allows allowed (text "any") → types ≢ []
    pub plain_text : ¬ Allows allowed (text "any") → types ≡ [] → Allows allowed (text "text")
    pub every_type :
        ¬ Allows allowed (text "any") → types ≢ [] → All (λ t. Allows allowed (lower lib t)) types

  pub record Accepts (rule : ForwardRule) (v : FilterView) : Type 0 where
    pub original : rule.forward_original_only ≡ true → v.is_forwarded ≡ false
    pub keyword : (rule.keywords ≡ []) ⊎ Some (Hits v.aggregate_text) rule.keywords
    pub expression : (rule.patterns ≡ []) ⊎ Some (Matches v.aggregate_text) rule.patterns
    pub no_word : All (λ w. ¬ Hits v.aggregate_text w) rule.blacklist
    pub no_expression : All (λ p. ¬ Matches v.aggregate_text p) rule.blacklist_patterns
    pub media : (rule.media_types ≡ []) ⊎ AllowsMedia rule.media_types v.media_types

  Hits-of-word_hits : (body w : Text) → word_hits lib (lower lib body) w ≡ true → Hits body w
  unfolding is_empty
  Hits-of-word_hits body [] h = cc
  Hits-of-word_hits body (c ∷ w) h = (λ e. cc, IsInfix-of-contains _ _ h)

  word_hits-of-Hits : (body w : Text) → Hits body w → word_hits lib (lower lib body) w ≡ true
  unfolding is_empty
  word_hits-of-Hits body [] h = absurd (h.0 refl)
  word_hits-of-Hits body (c ∷ w) h = contains-of-IsInfix _ _ h.1

  Matches-of-pattern_hits : (body p : Text) → pattern_hits lib body p ≡ true → Matches body p
  Matches-of-pattern_hits body p h = elim (Option-cases (lib.compile p)) [
    | inl bad ↦ cc (rw (bad, matches) at h)
    | inr (re, good) ↦ (re, good, rw (good, matches) at h)
  ]

  pattern_hits-of-Matches : (body p : Text) → Matches body p → pattern_hits lib body p ≡ true
  pattern_hits-of-Matches body p (re, good, h) = rw (good, matches) h

  check_keywords_iff :
      (body : Text) (ks : List Text)
      → (check_keywords lib body ks ≡ true) ↔ ((ks ≡ []) ⊎ Some (Hits body) ks)
  unfolding check_keywords
  check_keywords_iff body [] = (λ h. inl refl, λ h. refl)
  check_keywords_iff body (k ∷ ks) = (
    λ h. inr (Some-of-any _ _ (k ∷ ks) (Hits-of-word_hits body) h),
    elim [ inl e ↦ cc | inr h ↦ any-of-Some _ _ (k ∷ ks) (word_hits-of-Hits body) h ],
  )

  check_patterns_iff :
      (body : Text) (ps : List Text)
      → (check_patterns lib body ps ≡ true) ↔ ((ps ≡ []) ⊎ Some (Matches body) ps)
  unfolding check_patterns
  check_patterns_iff body [] = (λ h. inl refl, λ h. refl)
  check_patterns_iff body (p ∷ ps) = (
    λ h. inr (Some-of-any _ _ (p ∷ ps) (Matches-of-pattern_hits body) h),
    elim [ inl e ↦ cc | inr h ↦ any-of-Some _ _ (p ∷ ps) (pattern_hits-of-Matches body) h ],
  )

  find_word-any :
      (lowered : Text) (ws : List Text)
      → (find_word lib lowered ws ≡ none) ↔ (any (word_hits lib lowered) ws ≡ false)
  unfolding find_word
  find_word-any lowered [] = (λ h. refl, λ h. refl)
  find_word-any lowered (w ∷ ws) = elim (Bool-cases (word_hits lib lowered w)) [
    | inl e ↦ rw e (λ h. cc, λ h. cc)
    | inr e ↦ rw e (find_word-any lowered ws)
  ]

  find_pattern-any :
      (body : Text) (ps : List Text)
      → (find_pattern lib body ps ≡ none) ↔ (any (pattern_hits lib body) ps ≡ false)
  unfolding find_pattern
  find_pattern-any body [] = (λ h. refl, λ h. refl)
  find_pattern-any body (p ∷ ps) = elim (Bool-cases (pattern_hits lib body p)) [
    | inl e ↦ rw e (λ h. cc, λ h. cc)
    | inr e ↦ rw e (find_pattern-any body ps)
  ]

  check_blacklists_iff :
      (body : Text) (ws ps : List Text)
      → (check_blacklists lib body ws ps ≡ none)
        ↔ (All (λ w. ¬ Hits body w) ws × All (λ p. ¬ Matches body p) ps)
  unfolding check_blacklists
  check_blacklists_iff body ws ps = (
    λ h. (
      All-not-of-any _ _ ws (word_hits-of-Hits body)
          ((find_word-any (lower lib body) ws).0 (ground (arith, h))),
      All-not-of-any _ _ ps (pattern_hits-of-Matches body)
          ((find_pattern-any body ps).0 (ground (arith, h))),
    ),
    λ h.
        let no_word =
          (find_word-any (lower lib body) ws).1
            (any-of-All-not _ _ ws (Hits-of-word_hits body) h.0) in
        let no_pattern =
          (find_pattern-any body ps).1 (any-of-All-not _ _ ps (Matches-of-pattern_hits body) h.1) in
        ground (arith, no_word, no_pattern),
  )

  is_allowed_iff :
      (allowed : List Text) (t : Text) → (is_allowed lib allowed t ≡ true) ↔ Allows allowed t
  is_allowed_iff allowed t = (
    Some-of-any _ _ allowed (λ a h. text_eq→eq (lower lib a) t h),
    any-of-Some _ _ allowed (λ a e. rw e (text_eq_refl t)),
  )

  module _ (a : Text) (allowed : List Text) where
    media_accepted :
        (types : List Text)
        → check_media_types lib types (a ∷ allowed) ≡ true
        → AllowsMedia (a ∷ allowed) types
    unfolding check_media_types
    media_accepted [] h = elim (Bool-cases (is_allowed lib (a ∷ allowed) (text "any"))) [
      | inl e ↦ cc (rw e at h)
      | inr e ↦ record {
        under_any = λ y. cc (e, (is_allowed_iff (a ∷ allowed) (text "any")).1 y);
        plain_text = λ n z. (is_allowed_iff (a ∷ allowed) (text "text")).0 (rw e at h);
        every_type = λ n z. absurd (z refl);
      }
    ]
    media_accepted (t ∷ ts) h = elim (Bool-cases (is_allowed lib (a ∷ allowed) (text "any"))) [
      | inl e ↦ record {
        under_any = λ y z. cc;
        plain_text = λ n z. cc;
        every_type = λ n z. absurd (n ((is_allowed_iff (a ∷ allowed) (text "any")).0 e));
      }
      | inr e ↦ record {
        under_any = λ y z. cc;
        plain_text = λ n z. cc;
        every_type = λ n z.
            All-of-all _ _ (t ∷ ts) (λ x. (is_allowed_iff (a ∷ allowed) (lower lib x)).0)
              (rw e at h);
      }
    ]

    accepts_media :
        (types : List Text)
        → AllowsMedia (a ∷ allowed) types
        → check_media_types lib types (a ∷ allowed) ≡ true
    unfolding check_media_types
    accepts_media [] h = elim (Bool-cases (is_allowed lib (a ∷ allowed) (text "any"))) [
      | inl e ↦ absurd (h.under_any ((is_allowed_iff (a ∷ allowed) (text "any")).0 e) refl)
      | inr e ↦ rw e (
          (is_allowed_iff (a ∷ allowed) (text "text")).1
            (h.plain_text (λ y. cc (e, (is_allowed_iff (a ∷ allowed) (text "any")).1 y)) refl))
    ]
    accepts_media (t ∷ ts) h = elim (Bool-cases (is_allowed lib (a ∷ allowed) (text "any"))) [
      | inl e ↦ rw e
      | inr e ↦ rw e (
          all-of-All _ _ (t ∷ ts) (λ x. (is_allowed_iff (a ∷ allowed) (lower lib x)).1)
            (h.every_type (λ y. cc (e, (is_allowed_iff (a ∷ allowed) (text "any")).1 y)) (λ z. cc)))
    ]

  check_media_types_iff :
      (types allowed : List Text)
      → (check_media_types lib types allowed ≡ true) ↔ ((allowed ≡ []) ⊎ AllowsMedia allowed types)
  unfolding check_media_types
  check_media_types_iff types [] = (λ h. inl refl, λ h. refl)
  check_media_types_iff types (a ∷ allowed) = (
    λ h. inr (media_accepted a allowed types h),
    elim [ inl e ↦ cc | inr h ↦ accepts_media a allowed types h ],
  )

  -- The filter chain lets a message through exactly when the rule accepts it: it is original where
  -- the rule asks for that, a keyword and an expression hit where the rule has any, no blacklisted
  -- word or expression hits, and its media types are allowed. An expression that does not compile
  -- hits nothing, an empty keyword or word hits nothing, and case does not matter for words.
  pub should_forward_iff :
      (rule : ForwardRule) (v : FilterView) → (should_forward lib rule v ≡ none) ↔ Accepts rule v
  unfolding should_forward
  should_forward_iff rule v = (
    λ h. record {
      original = ground arith;
      keyword = (check_keywords_iff v.aggregate_text rule.keywords).0 (ground (arith, h));
      expression = (check_patterns_iff v.aggregate_text rule.patterns).0 (ground (arith, h));
      no_word = (clean (ground (arith, h))).0;
      no_expression = (clean (ground (arith, h))).1;
      media = (check_media_types_iff v.media_types rule.media_types).0 (ground (arith, h));
    },
    λ a.
        let keywords_pass = (check_keywords_iff v.aggregate_text rule.keywords).1 a.keyword in
        let patterns_pass = (check_patterns_iff v.aggregate_text rule.patterns).1 a.expression in
        let lists_pass = blacklists.1 (a.no_word, a.no_expression) in
        let media_pass = (check_media_types_iff v.media_types rule.media_types).1 a.media in
        ground (arith, keywords_pass, patterns_pass, lists_pass, media_pass, a.original),
  )
    where
      blacklists :
          (check_blacklists lib v.aggregate_text rule.blacklist rule.blacklist_patterns ≡ none) ↔ (
            All (λ w. ¬ Hits v.aggregate_text w) rule.blacklist
            × All (λ p. ¬ Matches v.aggregate_text p) rule.blacklist_patterns)
      blacklists = check_blacklists_iff v.aggregate_text rule.blacklist rule.blacklist_patterns

      clean :
          check_blacklists lib v.aggregate_text rule.blacklist rule.blacklist_patterns ≡ none
          → All (λ w. ¬ Hits v.aggregate_text w) rule.blacklist
            × All (λ p. ¬ Matches v.aggregate_text p) rule.blacklist_patterns
      clean = blacklists.0

-- ===== src/Forwarding/Filters.antt =====
-- internal/forwarding/filters.go: the pure filter chain. The Unicode tables and the regular
-- expressions of Go's library are parameters: `to_lower` is `unicode.ToLower`, `fold` takes a code
-- point to the representative of its simple case folding, and `compile` is `regexp.Compile` with
-- `MatchString`, `none` for an expression that does not compile. A rejection is a constructor in
-- place of the formatted reason.
pub mod Sound
use sakura_nexus.Base.{
  ℕ, Bool, true, false, not, ◌&&◌, ◌||◌, Option, none, some, List, [], ◌∷◌, ◌++◌, map, any, all,
  if◌then◌else◌, ◌==◌,
}
use sakura_nexus.Base.Text.{Text, text, text_eq, is_empty, contains_text, join, trim_prefix}
use sakura_nexus.Domain.{
  ChatRef, MediaRef, ChannelMessage, ForwardRule, ForwardHeader, peer_kind_eq,
}

pub record TextLibrary : Type 0 where
  pub to_lower : ℕ → ℕ
  pub fold : ℕ → ℕ
  pub compile : Text → Option (Text → Bool)

pub record FilterView : Type 0 where
  pub aggregate_text : Text
  pub media_types : List Text
  pub is_forwarded : Bool

pub data Rejection : Type 0 where
  not_original no_keyword no_pattern media_type : Rejection
  blacklisted : Text → Rejection
  blacklisted_pattern : Text → Rejection

-- `types[media.Type] = struct{}{}`
unfoldable pub add_type : Text → List Text → List Text
add_type t ts = if any (text_eq t) ts then ts else t ∷ ts

unfoldable pub add_media_types : List MediaRef → List Text → List Text
unfolding add_type
add_media_types [] types = types
add_media_types (m ∷ media) types = add_media_types media (add_type m.type types)

abbrev pub is_some {ℓ} : {A : Type ℓ} → Option A → Bool
is_some none = false
is_some (some a) = true

-- The loop of `BuildFilterView`: texts, types, forwarded.
unfoldable pub collect_view :
    List ChannelMessage → List Text → List Text → Bool → List Text × List Text × Bool
unfolding add_media_types is_empty
collect_view [] texts types forwarded = (texts, types, forwarded)
collect_view (m ∷ msgs) texts types forwarded =
    collect_view msgs (if is_empty m.body then texts else texts ++ m.body ∷ [])
      (add_media_types m.media types) (forwarded || is_some m.forward_from)

unfoldable pub build_filter_view : List ChannelMessage → FilterView
unfolding collect_view join
build_filter_view [] = record { aggregate_text = []; media_types = []; is_forwarded = false }
build_filter_view (m ∷ msgs) =
    let (texts, types, forwarded) = collect_view (m ∷ msgs) [] [] false in
    record {
      aggregate_text = join (text "\n") texts;
      media_types = types;
      is_forwarded = forwarded;
    }

-- `len(msgTypes) == 0`
abbrev pub no_types : List Text → Bool
no_types [] = true
no_types (t ∷ ts) = false

module _ (lib : TextLibrary) where
  abbrev pub lower : Text → Text
  lower s = map lib.to_lower s

  -- strings.EqualFold
  unfoldable pub equal_fold : Text → Text → Bool
  equal_fold s t = text_eq (map lib.fold s) (map lib.fold t)

  unfoldable pub match_source : ForwardRule → ChatRef → Text → Bool
  unfolding equal_fold
  match_source rule chat username =
      if peer_kind_eq chat.kind rule.source.kind && chat.id == rule.source.id
      then true
      else if is_empty username || is_empty rule.source_username
      then false
      else equal_fold (trim_prefix username (text "@"))
          (trim_prefix rule.source_username (text "@"))

  abbrev pub word_hits : Text → Text → Bool
  word_hits lowered word = not (is_empty word) && contains_text lowered (lower word)

  unfoldable pub check_keywords : Text → List Text → Bool
  check_keywords body [] = true
  check_keywords body (k ∷ keywords) = any (word_hits (lower body)) (k ∷ keywords)

  abbrev pub matches : Option (Text → Bool) → Text → Bool
  matches none body = false
  matches (some re) body = re body

  abbrev pub pattern_hits : Text → Text → Bool
  pattern_hits body p = matches (lib.compile p) body

  unfoldable pub check_patterns : Text → List Text → Bool
  check_patterns body [] = true
  check_patterns body (p ∷ patterns) = any (pattern_hits body) (p ∷ patterns)

  -- the loop over the words
  unfoldable pub find_word : Text → List Text → Option Text
  find_word lowered [] = none
  find_word lowered (w ∷ words) = if word_hits lowered w then some w else find_word lowered words

  -- the loop over the expressions
  unfoldable pub find_pattern : Text → List Text → Option Text
  find_pattern body [] = none
  find_pattern body (p ∷ patterns) =
      if pattern_hits body p then some p else find_pattern body patterns

  unfoldable pub check_blacklists : Text → List Text → List Text → Option Rejection
  check_blacklists body words patterns = elim (find_word (lower body) words) [
    | some w ↦ some (blacklisted w)
    | none ↦ elim (find_pattern body patterns) [
      | some p ↦ some (blacklisted_pattern p)
      | none ↦ none
    ]
  ]

  -- `allowedSet[t]`
  abbrev pub is_allowed : List Text → Text → Bool
  is_allowed allowed t = any (λ a. text_eq (lower a) t) allowed

  unfoldable pub check_media_types : List Text → List Text → Bool
  check_media_types types [] = true
  check_media_types types (a ∷ allowed) =
      if is_allowed (a ∷ allowed) (text "any")
      then not (no_types types)
      else if no_types types
      then is_allowed (a ∷ allowed) (text "text")
      else all (λ t. is_allowed (a ∷ allowed) (lower t)) types

  -- `none` is `(true, "")`.
  unfoldable pub should_forward : ForwardRule → FilterView → Option Rejection
  should_forward rule v =
      if rule.forward_original_only && v.is_forwarded
      then some not_original
      else if not (check_keywords v.aggregate_text rule.keywords)
      then some no_keyword
      else if not (check_patterns v.aggregate_text rule.patterns)
      then some no_pattern
      else elim (check_blacklists v.aggregate_text rule.blacklist rule.blacklist_patterns) [
        | some reason ↦ some reason
        | none ↦
            if not (check_media_types v.media_types rule.media_types) then some media_type else none
      ]

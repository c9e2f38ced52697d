-- ===== src/Forwarding/Footer.antt =====
-- internal/forwarding/footer.go: the footer templates. `replace` is `strings.NewReplacer(…).Replace`:
-- from left to right, at each place the first pair whose old text stands there.
pub mod Laws
use sakura_nexus.Base.{
  ℕ, zero, suc, ◌-◌, Bool, true, false, Option, none, some, List, [], ◌∷◌, ◌++◌, if◌then◌else◌,
  length,
}
use sakura_nexus.Base.Text.{Text, text, has_prefix, is_empty, trim_prefix, decimal}
use sakura_nexus.Domain.{ChatRef, ForwardRule}

unfoldable pub default_footer_template : Text
default_footer_template = text "{source_link}"

pub record FooterContext : Type 0 where
  pub source : ChatRef
  pub source_username : Text
  pub source_title : Text
  pub target : ChatRef
  pub target_username : Text
  pub target_title : Text
  pub message_id : ℕ
  pub assistant_bot : Text

unfoldable pub source_link : ChatRef → Text → ℕ → Text
source_link chat username msg_id =
    let u = trim_prefix username (text "@") in
    if is_empty u
    then text "https://t.me/c/" ++ (decimal chat.id ++ (text "/" ++ decimal msg_id))
    else text "https://t.me/" ++ (u ++ (text "/" ++ decimal msg_id))

unfoldable pub channel_handle : Text → Text → Text
channel_handle username title =
    let u = trim_prefix username (text "@") in if is_empty u then title else text "@" ++ u

abbrev pub Pairs : Type 0
Pairs = List (Text × Text)

-- The first pair whose old text begins `s`.
unfoldable pub find_pair : Pairs → Text → Option (Text × Text)
find_pair [] s = none
find_pair ((old, new) ∷ pairs) s = if has_prefix s old then some (old, new) else find_pair pairs s

-- `skip` characters belong to an old text that has been replaced.
unfoldable pub replace : Pairs → ℕ → Text → Text
unfolding find_pair
replace pairs skip [] = []
replace pairs (suc skip) (c ∷ s) = replace pairs skip s
replace pairs zero (c ∷ s) = elim (find_pair pairs (c ∷ s)) [
  | none ↦ c ∷ replace pairs zero s
  | some (old, new) ↦ new ++ replace pairs (length old - 1) s
]

unfoldable pub placeholders : FooterContext → Pairs
placeholders fc =
    (text "{source_link}", source_link fc.source fc.source_username fc.message_id)
    ∷ (text "{source_title}", fc.source_title)
    ∷ (text "{target_title}", fc.target_title)
    ∷ (text "{source_channel}", channel_handle fc.source_username fc.source_title)
    ∷ (text "{target_channel}", channel_handle fc.target_username fc.target_title)
    ∷ (text "{message_id}", decimal fc.message_id)
    ∷ (text "{assistant_bot}", fc.assistant_bot)
    ∷ []

unfoldable pub render_footer : Text → FooterContext → Text
unfolding replace placeholders
render_footer template fc = replace (placeholders fc) zero template

-- `show_default_footer` is the only parameter that the choice reads.
unfoldable pub choose_footer : ForwardRule → Bool → Text
choose_footer rule show_default_footer =
    if is_empty rule.custom_footer
    then (if show_default_footer then default_footer_template else [])
    else rule.custom_footer

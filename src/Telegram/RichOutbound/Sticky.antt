-- ===== src/Telegram/RichOutbound/Sticky.antt =====
-- internal/platform/telegram/rich_outbound.go: the capability, once it is found missing, stays so.
use sakura_nexus.Base.{◌≡◌, ◌⊎◌, inl, inr, refl, true, false, some, List, [], ◌∷◌, arith}
use sakura_nexus.Base.Text.{Text}
use sakura_nexus.Domain.{SendRequest, MessageContent, SendStyle, auto, plain, rich}
use sakura_nexus.Telegram.RichSplit.{parts}
use sakura_nexus.Telegram.RichParse.{rich_text_messages}
use sakura_nexus.Telegram.RichOutbound.{
  RichParams, CallResult, failed, api, Sent, RichState, capability, disable, fallback, plain_of,
  classify_and_recover, send_unavailable, send, SendError, build_rich_params, send_enabled,
  send_parts, unsupported_reason,
}

SendStyle-cases : (s : SendStyle) → (s ≡ rich) ⊎ (s ≡ auto) ⊎ (s ≡ plain)
SendStyle-cases rich = inl refl
SendStyle-cases auto = inr (inl refl)
SendStyle-cases plain = inr (inr refl)

disable-disabled : (reason : Text) (r : RichState) → (disable reason r).disabled ≡ true
unfolding disable
disable-disabled reason r = ground (arith)

module _ {W E : Type 0} (normalize : Text → Text) (rich_call : RichParams → W → CallResult × W)
    (plain_send : SendRequest → W → Sent E × W) where
  abbrev send_one :
      SendRequest → MessageContent → RichState → W → Sent (SendError E) × (RichState × W)
  send_one = send normalize (some rich_call) (some plain_send)

  -- The router after a list of requests.
  unfoldable pub send_all : List (SendRequest × MessageContent) → RichState → W → RichState × W
  send_all [] r w = (r, w)
  send_all ((req, c) ∷ reqs) r w =
      let (s, (r', w')) = send normalize (some rich_call) (some plain_send) req c r w in
      send_all reqs r' w'

  module _ (P : W → Type 0)
      (keeps : (req : SendRequest) (w : W) → P w → P (plain_send req w).1) where
    send-disabled :
        (req : SendRequest) (c : MessageContent) (r : RichState) (w : W)
        → r.disabled ≡ true
        → P w
        → ((send_one req c r w).1.0.disabled ≡ true) × P (send_one req c r w).1.1
    unfolding send send_unavailable fallback
    send-disabled req c r w h p = elim (SendStyle-cases req.style) [
      | inl forced ↦ rw (h, forced, capability, send_unavailable) (h, p)
      | inr (inl e) ↦
          rw (h, e, capability, send_unavailable, fallback) (h, keeps (plain_of req c) w p)
      | inr (inr e) ↦
          rw (h, e, capability, send_unavailable, fallback) (h, keeps (plain_of req c) w p)
    ]

    send_all-disabled :
        (reqs : List (SendRequest × MessageContent)) (r : RichState) (w : W)
        → r.disabled ≡ true
        → P w
        → ((send_all reqs r w).0.disabled ≡ true) × P (send_all reqs r w).1
    unfolding send_all
    send_all-disabled [] r w h p = (h, p)
    send_all-disabled ((req, c) ∷ reqs) r w h p =
        let (same, p') = send-disabled req c r w h p in
        let s = (send_one req c r w).1 in send_all-disabled reqs s.0 s.1 same p'

    rejected_send :
        (req : SendRequest) (c : MessageContent) (r : RichState) (w : W) (m : Text) (ms : List Text)
        (params : RichParams) (d : Text)
        → r.disabled ≡ false
        → rich_text_messages (normalize c.body) ≡ parts (m ∷ ms)
        → build_rich_params m req true ≡ some params
        → (rich_call params w).0 ≡ failed (api 404 d)
        → P (rich_call params w).1
        → ((send_one req c r w).1.0.disabled ≡ true) × P (send_one req c r w).1.1
    unfolding send send_enabled send_parts classify_and_recover disable fallback
    rejected_send req c r w m ms params d h split built answer p =
        rw (h, capability, split, send_enabled, built, answer, send_parts, classify_and_recover)
          (
            disable-disabled (unsupported_reason d) r,
            keeps (plain_of req c) (rich_call params w).1 p,
          )

    -- After a first message that is answered with 404 the router makes no call but those of MTProto,
    -- for the same request and for all that follow: the capability stays disabled, and what these calls
    -- keep holds after them if it did after the answer.
    pub unsupported-send_all :
        (req : SendRequest) (c : MessageContent) (reqs : List (SendRequest × MessageContent))
        (r : RichState) (w : W) (m : Text) (ms : List Text) (params : RichParams) (d : Text)
        → r.disabled ≡ false
        → rich_text_messages (normalize c.body) ≡ parts (m ∷ ms)
        → build_rich_params m req true ≡ some params
        → (rich_call params w).0 ≡ failed (api 404 d)
        → P (rich_call params w).1
        → ((send_all ((req, c) ∷ reqs) r w).0.disabled ≡ true)
          × P (send_all ((req, c) ∷ reqs) r w).1
    unfolding send_all
    unsupported-send_all req c reqs r w m ms params d h split built answer p =
        let (same, q) = rejected_send req c r w m ms params d h split built answer p in
        let s = (send_one req c r w).1 in send_all-disabled reqs s.0 s.1 same q

-- ===== src/Telegram/Outbound/Delivers.antt =====
-- internal/platform/telegram/outbound.go, `sendTextMTProto`: what arrives of a long text.
use sakura_nexus.Base.{
  ℕ, if◌then◌else◌, ◌==◌, ◌+◌, ◌≡◌, ◌⊎◌, inl, inr, refl, subst₂, ◌∙◌, Option, none, some, List, [],
  ◌∷◌, ◌++◌, append_assoc, arith, ◌≢◌, length, All, Option-cases,
}
use sakura_nexus.Base.Text.{Text}
use sakura_nexus.Domain.{ChatRef, SendRequest, SentMessage}
use sakura_nexus.Telegram.TextSplit.{TextSegment, telegram_message_limit}
use sakura_nexus.Telegram.TextSplit.Lossless.{IsWithin, bodies, split_long_text-lossless}
use sakura_nexus.Telegram.RichOutbound.{Sent, no_message}
use sakura_nexus.Telegram.Outbound.{
  OutboundError, no_resolver, unfinished, peer_error, resolved, unresolved, Answer, MessageRequest,
  text_of, input_peer, send_segments, send_text_mtproto, message_request, extract_sent_msg_id,
}

-- The text of all messages that were sent, beside the world. A message counts when it is answered.
abbrev pub recorded_send {ℓ} :
    {W : Type ℓ} {Peer : Type 0}
    → (MessageRequest Peer → W → Option Answer × W)
    → MessageRequest Peer
    → W × Text
    → Option Answer × (W × Text)
recorded_send send req (w, sent) =
    let (a, w') = send req w in
    (a, (w', elim a [ none ↦ sent | some answer ↦ sent ++ req.message ]))

abbrev pub beside {ℓ} : {W A : Type ℓ} → (W → A × W) → W × Text → A × (W × Text)
beside f (w, sent) = let (a, w') = f w in (a, (w', sent))

abbrev pub beside_peers {ℓ} :
    {W A : Type ℓ} → Option (ChatRef → W → A × W) → Option (ChatRef → W × Text → A × (W × Text))
beside_peers none = none
beside_peers (some resolve) = some (λ c. beside (resolve c))

-- What was sent of `body` after `before`: some of it, and all of it unless there is an error.
pub record Delivered (body before after : Text) (s : Sent OutboundError) : Type 0 where
  pub rest : Text
  pub begins : after ++ rest ≡ before ++ body
  pub is_all : s.error ≡ none → rest ≡ []
  pub finishes : s.error ≢ some unfinished

Delivered-resp :
    {body body' before before' after : Text} {s : Sent OutboundError}
    → body ≡ body'
    → before ≡ before'
    → Delivered body before after s
    → Delivered body' before' after s
Delivered-resp {after = after} {s = s} p q d = subst₂ (λ t b. Delivered t b after s) p q d

module _ {W Peer : Type 0} (peers : Option (ChatRef → W → Option Peer × W)) (random_id : W → ℕ × W)
    (send_message : MessageRequest Peer → W → Option Answer × W) where
  abbrev send_recorded :
      Peer
      → SendRequest
      → ℕ
      → ℕ
      → SentMessage
      → List TextSegment
      → W × Text
      → Sent OutboundError × (W × Text)
  send_recorded = send_segments (beside_peers peers) (beside random_id) (recorded_send send_message)

  send_segments-Delivered :
      (peer : Peer) (req : SendRequest) (n i : ℕ) (first : SentMessage) (segs : List TextSegment)
      (w : W) (before : Text)
      → Delivered
          (bodies segs)
          before
          (send_recorded peer req n i first segs (w, before)).1.1
          (send_recorded peer req n i first segs (w, before)).0
  unfolding send_segments bodies
  send_segments-Delivered peer req n i first [] w before = record {
    rest = [];
    begins = refl;
    is_all = λ e. refl;
    finishes = λ e. ground (arith, e);
  }
  send_segments-Delivered peer req n i first (seg ∷ segs) w before =
      let r = random_id w in
      let m =
        message_request (beside_peers peers) (beside random_id) (recorded_send send_message) peer
          req seg r.0 in
      elim (Option-cases (send_message m r.1).0) [
        | inl bad ↦
            rw (bad, send_segments, bad)
              (record {
                rest = seg.body ++ bodies segs;
                begins = refl;
                is_all = λ e. ground (arith, e);
                finishes = λ e. ground (arith, e);
              })
        | inr (answer, good) ↦
            rw (good, send_segments, good)
              (let next =
                  send_segments-Delivered peer req n (i + 1)
                    (if first.message_id == 0
                      then record {
                        chat_ref = req.chat_ref;
                        message_id = extract_sent_msg_id answer;
                      }
                      else first)
                    segs (send_message m r.1).1 (before ++ seg.body) in
                record {
                  rest = next.rest;
                  begins = next.begins ∙ append_assoc before seg.body (bodies segs);
                  is_all = next.is_all;
                  finishes = next.finishes;
                })
      ]

  -- A peer is found, or an error is returned; nothing is sent for it.
  Resolved-cases :
      (c : ChatRef) (w : W)
      → ((e : OutboundError) × ((input_peer (beside_peers peers) (beside random_id) c (w, [])).0
            ≡ unresolved e)
          × ((input_peer (beside_peers peers) (beside random_id) c (w, [])).1.1 ≡ [])
          × (e ≢ unfinished))
        ⊎ ((peer : Peer) × ((input_peer (beside_peers peers) (beside random_id) c (w, [])).0
              ≡ resolved peer)
            × ((input_peer (beside_peers peers) (beside random_id) c (w, [])).1.1 ≡ []))
  unfolding input_peer
  Resolved-cases c w = elim (Option-cases peers) [
    | inl bare ↦ inl (
      no_resolver,
      rw (bare, input_peer) refl,
      rw (bare, input_peer) refl,
      λ e. ground (arith, e),
    )
    | inr (resolve, known) ↦ elim (Option-cases (resolve c w).0) [
      | inl bad ↦ inl (
        peer_error,
        rw (known, input_peer, bad) refl,
        rw (known, input_peer, bad) refl,
        λ e. ground (arith, e),
      )
      | inr (peer, good) ↦
          inr (peer, rw (known, input_peer, good) refl, rw (known, input_peer, good) refl)
    ]
  ]

  -- Where the entities lie in the text: the messages that are sent are together the beginning of the text
  -- of the request, and all of it unless an error is returned. The splitting always ends.
  pub send_text_mtproto-Delivered :
      (req : SendRequest) (w : W)
      → All (IsWithin (length (text_of req))) req.entities
      → Delivered
          (text_of req)
          []
          (send_text_mtproto
            (beside_peers peers)
            (beside random_id)
            (recorded_send send_message)
            req
            (w, [])).1.1
          (send_text_mtproto
            (beside_peers peers)
            (beside random_id)
            (recorded_send send_message)
            req
            (w, [])).0
  unfolding send_text_mtproto
  send_text_mtproto-Delivered req w h = elim (Resolved-cases req.chat_ref w) [
    | inl (e, bad, same, other) ↦
        rw (bad, send_text_mtproto, same)
          (record {
            rest = text_of req;
            begins = refl;
            is_all = λ q. ground (arith, q);
            finishes = λ q. other (ground (arith, q));
          })
    | inr (peer, good, same) ↦
        let (segs, ends, whole, fit) =
          split_long_text-lossless (text_of req) req.entities telegram_message_limit (omega arith)
            h in
        let sink = (input_peer (beside_peers peers) (beside random_id) req.chat_ref (w, [])).1 in
        rw (good, send_text_mtproto, ends)
          (Delivered-resp whole same
            (send_segments-Delivered peer req (length segs) 1 no_message segs sink.0 sink.1))
  ]

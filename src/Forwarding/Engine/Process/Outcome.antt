-- ===== src/Forwarding/Engine/Process/Outcome.antt =====
-- What one rule does with a group of messages, by the answers of the queries, the filters and the queue
-- (internal/forwarding/engine.go, `processRule`).
use sakura_nexus.Base.{
  ◌+◌, ◌≡◌, inl, inr, Bool, true, false, Option, none, some, List, [], ◌∷◌, ◌++◌, Bool-cases,
  Option-cases,
}
use sakura_nexus.Base.Text.{is_empty}
use sakura_nexus.Domain.{ChatRef, ChannelMessage, ForwardRule}
use sakura_nexus.Forwarding.Filters.{FilterView, Rejection, should_forward, build_filter_view}
use sakura_nexus.Forwarding.Engine.State.{Deps, Engine}
use sakura_nexus.Forwarding.Engine.Process.{
  observe_all, finish_terminals, any_exists, content_exists, make_task, send_task, count_task,
  enqueue, filter_and_enqueue, check_content, process_rule,
}
use sakura_nexus.Forwarding.Engine.Process.Trackers.{Hit-cases}

module _ {W : Type 0} (d : Deps W) where
  -- The messages are asked for in their order, each in the world that the one before left, up to the
  -- first that was sent before or whose query fails. The option is the answer for all of them, the
  -- last world is the one after the last query.
  pub data Asked (target : ChatRef) : List ChannelMessage → W → Option Bool → W → Type 0 where
    none_sent : (w : W) → Asked target [] w (some false) w
    query_failed :
        (m : ChannelMessage) (msgs : List ChannelMessage) (w : W)
        → (d.exists m.ref target w).0 ≡ none
        → Asked target (m ∷ msgs) w none (d.exists m.ref target w).1
    was_sent :
        (m : ChannelMessage) (msgs : List ChannelMessage) (w : W)
        → (d.exists m.ref target w).0 ≡ some true
        → Asked target (m ∷ msgs) w (some true) (d.exists m.ref target w).1
    not_sent :
        (m : ChannelMessage) (msgs : List ChannelMessage) (w w' : W) (hit : Option Bool)
        → (d.exists m.ref target w).0 ≡ some false
        → Asked target msgs (d.exists m.ref target w).1 hit w'
        → Asked target (m ∷ msgs) w hit w'

  -- The text of the group is asked for if that is switched on and there is text; otherwise nothing is
  -- asked and there is no hit.
  pub data ContentAsked (e : Engine) (source target : ChatRef) (view : FilterView) (w : W)
      : Option Bool → W → Type 0 where
    switched_off :
        e.params.content_dedup ≡ false → ContentAsked e source target view w (some false) w
    no_text :
        is_empty view.aggregate_text ≡ true → ContentAsked e source target view w (some false) w
    asked :
        e.params.content_dedup ≡ true
        → is_empty view.aggregate_text ≡ false
        → ContentAsked e source target view w
            (d.exists_by_content source target (d.content_hash view.aggregate_text) w).0
            (d.exists_by_content source target (d.content_hash view.aggregate_text) w).1

  any_exists-Asked :
      (target : ChatRef) (msgs : List ChannelMessage) (w : W)
      → Asked target msgs w (any_exists d msgs target w).0 (any_exists d msgs target w).1
  unfolding any_exists
  any_exists-Asked target [] w = none_sent w
  any_exists-Asked target (m ∷ msgs) w = elim (Hit-cases (d.exists m.ref target w).0) [
    | inl failed ↦ rw (failed, any_exists) (query_failed m msgs w failed)
    | inr (inl sent) ↦ rw (sent, any_exists) (was_sent m msgs w sent)
    | inr (inr miss) ↦
        rw (miss, any_exists)
          (not_sent m msgs w _ _ miss (any_exists-Asked target msgs (d.exists m.ref target w).1))
  ]

  content_exists-ContentAsked :
      (e : Engine) (rule : ForwardRule) (source : ChatRef) (view : FilterView) (w : W)
      → ContentAsked e source rule.target view w
          (content_exists d e rule source view w).0
          (content_exists d e rule source view w).1
  unfolding content_exists
  content_exists-ContentAsked e rule source view w = elim (Bool-cases e.params.content_dedup) [
    | inr off ↦ simp off (switched_off off)
    | inl on ↦ elim (Bool-cases (is_empty view.aggregate_text)) [
      | inl blank ↦ simp (on, blank) (no_text blank)
      | inr text ↦ simp (on, text) (asked on text)
    ]
  ]

module _ {W : Type 0} (d : Deps W) (rule : ForwardRule) (m : ChannelMessage)
    (msgs : List ChannelMessage) where
  -- The ways out of `processRule`, each with the answers that lead to it, from the engine in which the
  -- group has been observed. A group that is skipped is finished as a whole.
  pub data Outcome (e : Engine) (w : W) : Engine × W → Type 0 where
    sent_before :
        (w1 : W)
        → Asked d rule.target (m ∷ msgs) w (some true) w1
        → Outcome e w (finish_terminals d e rule (m ∷ msgs) w1)
    same_content :
        (w1 w2 : W)
        → Asked d rule.target (m ∷ msgs) w (some false) w1
        → ContentAsked d e m.ref.chat_ref rule.target
            (build_filter_view (m ∷ msgs))
            w1
            (some true)
            w2
        → Outcome e w (finish_terminals d e rule (m ∷ msgs) w2)
    filtered :
        (w1 w2 : W) (reason : Rejection)
        → Asked d rule.target (m ∷ msgs) w (some false) w1
        → ContentAsked d e m.ref.chat_ref rule.target
            (build_filter_view (m ∷ msgs))
            w1
            (some false)
            w2
        → should_forward d.lib rule (build_filter_view (m ∷ msgs)) ≡ some reason
        → Outcome e w (finish_terminals d e rule (m ∷ msgs) w2)
    queued :
        (w1 w2 : W)
        → Asked d rule.target (m ∷ msgs) w (some false) w1
        → ContentAsked d e m.ref.chat_ref rule.target
            (build_filter_view (m ∷ msgs))
            w1
            (some false)
            w2
        → should_forward d.lib rule (build_filter_view (m ∷ msgs)) ≡ none
        → (d.admit w2).0 ≡ true
        → Outcome e w (
          record e { queue = e.queue ++ make_task d rule m msgs ∷ []; enqueued = e.enqueued + 1 },
          (d.admit w2).1,
        )
    cancelled :
        (w1 w2 : W)
        → Asked d rule.target (m ∷ msgs) w (some false) w1
        → ContentAsked d e m.ref.chat_ref rule.target
            (build_filter_view (m ∷ msgs))
            w1
            (some false)
            w2
        → should_forward d.lib rule (build_filter_view (m ∷ msgs)) ≡ none
        → (d.admit w2).0 ≡ false
        → Outcome e w (e, (d.admit w2).1)
    lookup_failed : (w1 : W) → Asked d rule.target (m ∷ msgs) w none w1 → Outcome e w (e, w1)
    content_failed :
        (w1 w2 : W)
        → Asked d rule.target (m ∷ msgs) w (some false) w1
        → ContentAsked d e m.ref.chat_ref rule.target (build_filter_view (m ∷ msgs)) w1 none w2
        → Outcome e w (e, w2)

  filter_and_enqueue-Outcome :
      (e : Engine) (w w1 w2 : W)
      → Asked d rule.target (m ∷ msgs) w (some false) w1
      → ContentAsked d e m.ref.chat_ref rule.target
          (build_filter_view (m ∷ msgs))
          w1
          (some false)
          w2
      → Outcome e w (filter_and_enqueue d e rule m msgs w2)
  unfolding filter_and_enqueue enqueue send_task count_task
  filter_and_enqueue-Outcome e w w1 w2 a c =
      elim (Option-cases (should_forward d.lib rule (build_filter_view (m ∷ msgs)))) [
        | inr (reason, no_pass) ↦
            rw (no_pass, filter_and_enqueue) (filtered w1 w2 reason a c no_pass)
        | inl pass ↦ elim (Bool-cases (d.admit w2).0) [
          | inl room ↦ rw (pass, filter_and_enqueue, room) (queued w1 w2 a c pass room)
          | inr gone ↦ rw (pass, filter_and_enqueue, gone) (cancelled w1 w2 a c pass gone)
        ]
      ]

  check_content-Outcome :
      (e : Engine) (w w1 : W)
      → Asked d rule.target (m ∷ msgs) w (some false) w1
      → Outcome e w (check_content d e rule m msgs w1)
  unfolding check_content
  check_content-Outcome e w w1 a =
      let view = build_filter_view (m ∷ msgs) in
      let out = content_exists d e rule m.ref.chat_ref view w1 in
      let told = content_exists-ContentAsked d e rule m.ref.chat_ref view w1 in
      elim (Hit-cases out.0) [
        | inl failed ↦ rw (failed, check_content) (content_failed w1 out.1 a (rw failed at told))
        | inr (inl hit) ↦ rw (hit, check_content) (same_content w1 out.1 a (rw hit at told))
        | inr (inr miss) ↦
            rw (miss, check_content) (filter_and_enqueue-Outcome e w w1 out.1 a (rw miss at told))
      ]

  -- A rule observes the whole group, and then the answers decide. A group with a message that was sent
  -- before, with a text that was, or that the filters reject is finished as a whole and not queued; a
  -- group that passes all three is queued as one task, unless the context is cancelled first; and where a
  -- query fails or the context is cancelled, nothing is finished and nothing is queued.
  pub process_rule-Outcome :
      (e : Engine) (w : W)
      → Outcome (observe_all e rule (m ∷ msgs)) w (process_rule d e rule m msgs w)
  unfolding process_rule
  process_rule-Outcome e w =
      let e' = observe_all e rule (m ∷ msgs) in
      let out = any_exists d (m ∷ msgs) rule.target w in
      let told = any_exists-Asked d rule.target (m ∷ msgs) w in
      elim (Hit-cases out.0) [
        | inl failed ↦ rw (failed, process_rule) (lookup_failed out.1 (rw failed at told))
        | inr (inl hit) ↦ rw (hit, process_rule) (sent_before out.1 (rw hit at told))
        | inr (inr miss) ↦
            rw (miss, process_rule) (check_content-Outcome e' w out.1 (rw miss at told))
      ]

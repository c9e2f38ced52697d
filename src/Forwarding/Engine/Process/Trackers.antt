-- ===== src/Forwarding/Engine/Process/Trackers.antt =====
-- The trackers of the rules while messages are processed (internal/forwarding/engine.go), and the
-- rule by which a property of the engine is carried through `processGroup`.
use sakura_nexus.Base.{
  ℕ, ◌≡◌, ◌⊎◌, inl, inr, refl, subst, Bool, true, false, not, Option, none, some, List, [], ◌∷◌,
  if◌then◌else◌, ◌==◌, ==-refl, arith, Bool-cases, Option-cases,
}
use sakura_nexus.Base.Assoc.{lookup, lookup-put, nat_eq}
use sakura_nexus.Domain.{ChatRef, chat_ref_eq, ChannelMessage, ForwardRule}
use sakura_nexus.Domain.Laws.{chat_ref_instance}
use sakura_nexus.Base.Text.{Text}
use sakura_nexus.Forwarding.Cursor.{CursorTracker, observe, terminal}
use sakura_nexus.Forwarding.Cursor.Terminal.{
  IsValid, new_cursor_tracker-IsValid, observe-IsValid, terminal-IsValid,
}
use sakura_nexus.Forwarding.Engine.State.{Deps, Engine, SendTask}
use sakura_nexus.Forwarding.Engine.Process.{
  tracker_for, set_tracker, observe_loop, observe_all, terminal_loop, finish_terminals,
  lookup_username, match_rule, any_exists, content_exists, enqueue, make_task, filter_and_enqueue,
  check_content, process_rule, process_rules, process_group, process_groups,
}
use sakura_nexus.Forwarding.Filters.{should_forward, build_filter_view}

-- Every tracker is a valid one.
abbrev pub HasValidTrackers : Engine → Type 0
HasValidTrackers e = (id : ℕ) (t : CursorTracker) → lookup id e.trackers ≡ some t → IsValid t

pub tracker_for-IsValid :
    (e : Engine) (rule : ForwardRule) → HasValidTrackers e → IsValid (tracker_for e rule)
unfolding tracker_for
tracker_for-IsValid e rule h = elim (Option-cases (lookup rule.id e.trackers)) [
  | inl new ↦ rw (new, tracker_for) (new_cursor_tracker-IsValid rule.last_message_id)
  | inr (t, old) ↦ rw (old, tracker_for) (h rule.id t old)
]

pub set_tracker-HasValidTrackers :
    (e : Engine) (rule : ForwardRule) (t : CursorTracker)
    → HasValidTrackers e
    → IsValid t
    → HasValidTrackers (set_tracker e rule t)
unfolding set_tracker
set_tracker-HasValidTrackers e rule t h v id t' found = elim (Bool-cases (rule.id == id)) [
  | inl same ↦ subst IsValid (ground (arith, lookup-put rule.id id t e.trackers, found, same)) v
  | inr other ↦ h id t' (ground (arith, lookup-put rule.id id t e.trackers, found, other))
]

pub tracker_for-set_tracker :
    (e : Engine) (rule : ForwardRule) (t : CursorTracker)
    → tracker_for (set_tracker e rule t) rule ≡ t
unfolding tracker_for set_tracker
tracker_for-set_tracker e rule t =
    rw (lookup-put rule.id rule.id t e.trackers, ==-refl rule.id, tracker_for)

observe_loop-IsValid :
    (t : CursorTracker) (msgs : List ChannelMessage) → IsValid t → IsValid (observe_loop t msgs)
unfolding observe_loop
observe_loop-IsValid t [] v = v
observe_loop-IsValid t (m ∷ msgs) v =
    observe_loop-IsValid (observe t m.ref.message_id) msgs (observe-IsValid t m.ref.message_id v)

terminal_loop-IsValid :
    (t : CursorTracker) (moved : Bool) (msgs : List ChannelMessage)
    → IsValid t
    → IsValid (terminal_loop t moved msgs).0
unfolding terminal_loop
terminal_loop-IsValid t moved [] v = v
terminal_loop-IsValid t moved (m ∷ msgs) v =
    terminal_loop-IsValid (terminal t m.ref.message_id).0
      (if (terminal t m.ref.message_id).1.1 then true else moved) msgs
      (terminal-IsValid t m.ref.message_id v)

pub observe_all-HasValidTrackers :
    (e : Engine) (rule : ForwardRule) (msgs : List ChannelMessage)
    → HasValidTrackers e
    → HasValidTrackers (observe_all e rule msgs)
unfolding observe_all
observe_all-HasValidTrackers e rule msgs h =
    set_tracker-HasValidTrackers e rule (observe_loop (tracker_for e rule) msgs) h
      (observe_loop-IsValid (tracker_for e rule) msgs (tracker_for-IsValid e rule h))

pub finish_terminals-HasValidTrackers :
    {W : Type 0} (d : Deps W) (e : Engine) (rule : ForwardRule) (msgs : List ChannelMessage) (w : W)
    → HasValidTrackers e
    → HasValidTrackers (finish_terminals d e rule msgs w).0
unfolding finish_terminals
finish_terminals-HasValidTrackers d e rule msgs w h =
    set_tracker-HasValidTrackers e rule (terminal_loop (tracker_for e rule) false msgs).0 h
      (terminal_loop-IsValid (tracker_for e rule) false msgs (tracker_for-IsValid e rule h))

pub Hit-cases : (o : Option Bool) → (o ≡ none) ⊎ (o ≡ some true) ⊎ (o ≡ some false)
Hit-cases none = inl refl
Hit-cases (some true) = inr (inl refl)
Hit-cases (some false) = inr (inr refl)

-- A property that the steps of the pipeline keep is kept by the pipeline.
pub record IsKept {W : Type 0} (d : Deps W) (P : Engine → Type 0) : Type 0 where
  pub by_observe :
      (e : Engine) (r : ForwardRule) (msgs : List ChannelMessage) → P e → P (observe_all e r msgs)
  pub by_finish :
      (e : Engine) (r : ForwardRule) (msgs : List ChannelMessage) (w : W)
      → P e
      → P (finish_terminals d e r msgs w).0
  pub by_enqueue : (e : Engine) (t : SendTask) (w : W) → P e → P (enqueue d e t w).0
  pub by_names :
      (e : Engine) (names : List (ChatRef × Text)) → P e → P (record e { usernames = names })

module _ {W : Type 0} (d : Deps W) (P : Engine → Type 0) (k : IsKept d P) where
  lookup_username_keeps :
      (e : Engine) (chat : ChatRef) (w : W) → P e → P (lookup_username d e chat w).1
  unfolding lookup_username
  lookup_username_keeps e chat w h =
      if_keeps (not e.has_username_rules) _ _ h (elim (Option-cases (lookup chat e.usernames)) [
        | inr (cached, hit) ↦ rw hit h
        | inl miss ↦ elim (Option-cases d.get_channel) [
          | inl unwired ↦ rw (miss, unwired) (k.by_names e _ h)
          | inr (get, wired) ↦ rw (miss, wired) (k.by_names e _ h)
        ]
      ])
    where
      if_keeps : (b : Bool) (x y : Text × Engine × W) → P x.1 → P y.1 → P (if b then x else y).1
      if_keeps true x y hx hy = hx
      if_keeps false x y hx hy = hy

  match_rule_keeps :
      (e : Engine) (r : ForwardRule) (chat : ChatRef) (w : W) → P e → P (match_rule d e r chat w).1
  unfolding match_rule
  match_rule_keeps e r chat w h = elim (Bool-cases (chat_ref_eq r.source chat)) [
    | inl exact ↦ rw exact h
    | inr other ↦ rw other (lookup_username_keeps e chat w h)
  ]

  filter_and_enqueue_keeps :
      (e : Engine) (r : ForwardRule) (m : ChannelMessage) (msgs : List ChannelMessage) (w : W)
      → P e
      → P (filter_and_enqueue d e r m msgs w).0
  unfolding filter_and_enqueue
  filter_and_enqueue_keeps e r m msgs w h =
      elim (Option-cases (should_forward d.lib r (build_filter_view (m ∷ msgs)))) [
        | inl pass ↦ rw (pass, filter_and_enqueue) (k.by_enqueue e (make_task d r m msgs) w h)
        | inr (reason, no_pass) ↦ rw (no_pass, filter_and_enqueue) (k.by_finish e r (m ∷ msgs) w h)
      ]

  check_content_keeps :
      (e : Engine) (r : ForwardRule) (m : ChannelMessage) (msgs : List ChannelMessage) (w : W)
      → P e
      → P (check_content d e r m msgs w).0
  unfolding check_content
  check_content_keeps e r m msgs w h =
      let view = build_filter_view (m ∷ msgs) in
      elim (Hit-cases (content_exists d e r m.ref.chat_ref view w).0) [
        | inl failed ↦ rw (failed, check_content) h
        | inr (inl hit) ↦ rw (hit, check_content) (k.by_finish e r (m ∷ msgs) _ h)
        | inr (inr miss) ↦ rw (miss, check_content) (filter_and_enqueue_keeps e r m msgs _ h)
      ]

  process_rule_keeps :
      (e : Engine) (r : ForwardRule) (m : ChannelMessage) (msgs : List ChannelMessage) (w : W)
      → P e
      → P (process_rule d e r m msgs w).0
  unfolding process_rule
  process_rule_keeps e r m msgs w h =
      let e' = observe_all e r (m ∷ msgs) in
      let h' : P e' = k.by_observe e r (m ∷ msgs) h in
      elim (Hit-cases (any_exists d (m ∷ msgs) r.target w).0) [
        | inl failed ↦ rw (failed, process_rule) h'
        | inr (inl hit) ↦ rw (hit, process_rule) (k.by_finish e' r (m ∷ msgs) _ h')
        | inr (inr miss) ↦ rw (miss, process_rule) (check_content_keeps e' r m msgs _ h')
      ]

  process_rules_keeps :
      (rules : List ForwardRule) (e : Engine) (m : ChannelMessage) (msgs : List ChannelMessage)
      (w : W)
      → P e
      → P (process_rules d rules e m msgs w).0
  unfolding process_rules
  process_rules_keeps [] e m msgs w h = h
  process_rules_keeps (r ∷ rules) e m msgs w h =
      let e1 = (match_rule d e r m.ref.chat_ref w).1 in
      let w1 = (match_rule d e r m.ref.chat_ref w).2 in
      let h1 : P e1 = match_rule_keeps e r m.ref.chat_ref w h in
      elim (Bool-cases (match_rule d e r m.ref.chat_ref w).0) [
        | inl yes_match ↦
            rw (yes_match, process_rules)
              (process_rules_keeps rules (process_rule d e1 r m msgs w1).0 m msgs
                (process_rule d e1 r m msgs w1).1 (process_rule_keeps e1 r m msgs w1 h1))
        | inr no_match ↦ rw (no_match, process_rules) (process_rules_keeps rules e1 m msgs w1 h1)
      ]

  pub process_group_keeps :
      (e : Engine) (msgs : List ChannelMessage) (w : W) → P e → P (process_group d e msgs w).0
  unfolding process_group
  process_group_keeps e [] w h = h
  process_group_keeps e (m ∷ msgs) w h = process_rules_keeps e.rules_cache e m msgs w h

  pub process_groups_keeps :
      (gs : List (List ChannelMessage)) (e : Engine) (w : W) → P e → P (process_groups d gs e w).0
  unfolding process_groups
  process_groups_keeps [] e w h = h
  process_groups_keeps (g ∷ gs) e w h =
      process_groups_keeps gs (process_group d e g w).0 (process_group d e g w).1
        (process_group_keeps e g w h)

-- ===== src/Forwarding/Album/Laws.antt =====
-- Collecting albums (internal/forwarding/album.go): nothing is lost or duplicated, a group is one
-- album, and its size and the time that it waits are bounded.
use sakura_nexus.Base.{
  ℕ, ◌+◌, ◌-◌, ◌≤◌, ◌<◌, ◌≡◌, ◌≢◌, inl, inr, Bool, true, false, none, some, [], ◌∷◌, ◌++◌, leb,
  ◌==◌, All, All-imp, All-append, if◌then◌else◌, length, Bool-cases, Option-cases, arith, refl, ◌∙◌,
  ==→eq,
}
use sakura_nexus.Base.Assoc.{lookup, put, remove, nat_eq}
use sakura_nexus.Domain.{ChannelMessage}
use sakura_nexus.Forwarding.Album.{
  AlbumConfig, AlbumState, AlbumAggregator, Groups, ms, new_album_aggregator, reset_timer,
  deadline_passed, keep_or_flush, add_member, add_first, add, is_due, split_due, flush_due,
  default_album_config,
}
use sakura_nexus.Forwarding.Album.Groups.{
  count, count_all, count_groups, count_ready, count-append, HasUniqueKeys, Absent-of-lookup,
  HasUniqueKeys-remove, HasUniqueKeys-put, count-remove, count-put, count-put_new,
  count-remove-Absent, All-lookup, All-put, All-remove,
}

-- A collected group: not flushed, not full, all of one album, and its timer fires by the deadline.
abbrev pub IsOpen : AlbumConfig → ℕ × AlbumState → Type 0
IsOpen cfg (gid, st) =
    (st.flushed ≡ false)
    × (length st.msgs < cfg.max_size)
    × All (λ m. m.grouped_id ≡ gid) st.msgs
    × ((at : ℕ) → st.timer ≡ some at → at ≤ st.first_seen + ms cfg.hard_deadline_ms)

pub record IsValid (a : AlbumAggregator) : Type 0 where
  pub quiet_positive : 0 < a.cfg.quiet_ms
  pub quiet_le_hard : a.cfg.quiet_ms ≤ a.cfg.hard_deadline_ms
  pub size_positive : 0 < a.cfg.max_size
  pub unique : HasUniqueKeys a.groups
  pub open_groups : All (IsOpen a.cfg) a.groups

-- Whatever the configuration, a new aggregator is well formed: a bad window falls back to the
-- default.
pub new_album_aggregator-IsValid : (cfg : AlbumConfig) → IsValid (new_album_aggregator cfg)
unfolding new_album_aggregator default_album_config
new_album_aggregator-IsValid cfg = record {
  quiet_positive = ground arith;
  quiet_le_hard = ground arith;
  size_positive = ground arith;
  unique = tt;
  open_groups = tt;
}

module _ (cfg : AlbumConfig) (now : ℕ) (st : AlbumState) where
  msgs-reset_timer : (reset_timer cfg now st).msgs ≡ st.msgs
  unfolding reset_timer
  msgs-reset_timer = ground arith

  first_seen-reset_timer : (reset_timer cfg now st).first_seen ≡ st.first_seen
  unfolding reset_timer
  first_seen-reset_timer = ground arith

  flushed-reset_timer : (reset_timer cfg now st).flushed ≡ st.flushed
  unfolding reset_timer
  flushed-reset_timer = ground arith

  timer-reset_timer :
      (at : ℕ)
      → st.first_seen ≤ now
      → ((k : ℕ) → st.timer ≡ some k → k ≤ st.first_seen + ms cfg.hard_deadline_ms)
      → (reset_timer cfg now st).timer ≡ some at
      → at ≤ st.first_seen + ms cfg.hard_deadline_ms
  unfolding reset_timer
  timer-reset_timer at h old e = ground (arith, old at)

remove-IsValid :
    (a : AlbumAggregator) (k : ℕ) → IsValid a → IsValid (record a { groups = remove k a.groups })
remove-IsValid a k v = record {
  quiet_positive = v.quiet_positive;
  quiet_le_hard = v.quiet_le_hard;
  size_positive = v.size_positive;
  unique = HasUniqueKeys-remove k a.groups v.unique;
  open_groups = All-remove (IsOpen a.cfg) k a.groups v.open_groups;
}

put-IsValid :
    (a : AlbumAggregator) (k : ℕ) (st : AlbumState)
    → IsValid a
    → IsOpen a.cfg (k, st)
    → IsValid (record a { groups = put k st a.groups })
put-IsValid a k st v o = record {
  quiet_positive = v.quiet_positive;
  quiet_le_hard = v.quiet_le_hard;
  size_positive = v.size_positive;
  unique = HasUniqueKeys-put k st a.groups v.unique;
  open_groups = All-put (IsOpen a.cfg) k st a.groups o v.open_groups;
}

keep_or_flush-IsValid :
    (a : AlbumAggregator) (now gid : ℕ) (st : AlbumState)
    → IsValid a
    → (leb a.cfg.max_size (length st.msgs) ≡ false → IsOpen a.cfg (gid, st))
    → IsValid (keep_or_flush a now gid st).0
unfolding keep_or_flush
keep_or_flush-IsValid a now gid st v o = elim (Bool-cases (leb a.cfg.max_size (length st.msgs))) [
  | inl full ↦ rw full (remove-IsValid a gid v)
  | inr fits ↦ elim (Bool-cases (deadline_passed a.cfg now st)) [
    | inl late ↦ rw (fits, late) (remove-IsValid a gid v)
    | inr early ↦ rw (fits, early) (put-IsValid a gid st v (o fits))
  ]
]

if-IsValid :
    {R : Type 0} (b : Bool) (x y : AlbumAggregator × R)
    → IsValid x.0
    → IsValid y.0
    → IsValid (if b then x else y).0
if-IsValid true x y h k = h
if-IsValid false x y h k = k

module _ (a : AlbumAggregator) (now : ℕ) (m : ChannelMessage) (v : IsValid a) where
  module _ (st : AlbumState) (e : lookup m.grouped_id a.groups ≡ some st) where
    abbrev joined : AlbumState
    joined = record st { msgs = st.msgs ++ m ∷ [] }

    add_member-count :
        (p : ChannelMessage → Bool)
        → count_groups p (add_member a now m st).0.groups + count_ready p (add_member a now m st).1
          ≡ count_groups p a.groups + count p (m ∷ [])
    unfolding add_member keep_or_flush
    add_member-count p =
        let now_open : IsOpen a.cfg (m.grouped_id, st) =
          All-lookup (IsOpen a.cfg) m.grouped_id st a.groups v.open_groups e in
        let more : count p (reset_timer a.cfg now joined).msgs
            ≡ count p st.msgs + count p (m ∷ []) =
          rw (msgs-reset_timer a.cfg now joined) (count-append p st.msgs (m ∷ [])) in
        ground (
          arith,
          now_open.0,
          more,
          count-remove p m.grouped_id st a.groups v.unique e,
          count-put p m.grouped_id st (reset_timer a.cfg now joined) a.groups e,
        )

    joined-IsOpen :
        st.first_seen ≤ now
        → leb a.cfg.max_size (length (reset_timer a.cfg now joined).msgs) ≡ false
        → IsOpen a.cfg (m.grouped_id, reset_timer a.cfg now joined)
    joined-IsOpen h fits =
        let now_open : IsOpen a.cfg (m.grouped_id, st) =
          All-lookup (IsOpen a.cfg) m.grouped_id st a.groups v.open_groups e in
        (
          flushed-reset_timer a.cfg now joined ∙ now_open.0,
          ground arith,
          rw (msgs-reset_timer a.cfg now joined)
              (All-append _ st.msgs (m ∷ []) now_open.2 (refl, tt)),
          λ at t.
              rw (first_seen-reset_timer a.cfg now joined)
                (timer-reset_timer a.cfg now joined at h now_open.3 t),
        )

    add_member-IsValid : st.first_seen ≤ now → IsValid (add_member a now m st).0
    unfolding add_member
    add_member-IsValid h = if-IsValid st.flushed _ _ v (
        keep_or_flush-IsValid a now m.grouped_id (reset_timer a.cfg now joined) v (joined-IsOpen h))

  first : AlbumState
  first =
      reset_timer a.cfg now
        (record { msgs = m ∷ []; first_seen = now; timer = none; flushed = false })

  add_first-count :
      (p : ChannelMessage → Bool)
      → lookup m.grouped_id a.groups ≡ none
      → m.ref.message_id ≢ 0
      → count_groups p (add_first a now m).0.groups + count_ready p (add_first a now m).1
        ≡ count_groups p a.groups + count p (m ∷ [])
  unfolding add_first first
  add_first-count p e n =
      let absent = Absent-of-lookup m.grouped_id a.groups e in
      let one : count p first.msgs ≡ count p (m ∷ []) = rw msgs-reset_timer in
      ground (
        arith,
        one,
        count-remove-Absent p m.grouped_id a.groups absent,
        count-put_new p m.grouped_id first a.groups absent,
      )

  first-IsOpen : leb a.cfg.max_size (length first.msgs) ≡ false → IsOpen a.cfg (m.grouped_id, first)
  unfolding first
  first-IsOpen fits = (
    flushed-reset_timer a.cfg now _,
    ground arith,
    rw msgs-reset_timer (refl, tt),
    λ at t.
        rw first_seen-reset_timer (timer-reset_timer a.cfg now _ at (omega arith) (λ k e. cc) t),
  )

  add_first-IsValid : IsValid (add_first a now m).0
  unfolding add_first first
  add_first-IsValid = elim (Bool-cases (m.ref.message_id == 0)) [
    | inl zero_id ↦ rw zero_id v
    | inr has_id ↦ elim (Bool-cases (leb a.cfg.max_size (length first.msgs))) [
      | inl full ↦ rw (has_id, full) (remove-IsValid a m.grouped_id v)
      | inr fits ↦ rw (has_id, fits) (put-IsValid a m.grouped_id first v (first-IsOpen fits))
    ]
  ]

-- The clock has not gone back behind the first member of a group.
abbrev pub IsAfter : ℕ → AlbumAggregator → Type 0
IsAfter now a = All (λ g. (g.1).first_seen ≤ now) a.groups

-- Under a clock that does not go back, adding a message keeps the aggregator well formed: one group
-- for an album, never flushed, never full, of messages of that album alone, and with a quiet timer
-- that does not fire after the hard deadline.
pub add-IsValid :
    (a : AlbumAggregator) (now : ℕ) (m : ChannelMessage)
    → IsValid a
    → IsAfter now a
    → IsValid (add a now m).0
unfolding add
add-IsValid a now m v after = elim (Bool-cases (m.grouped_id == 0)) [
  | inl single ↦ rw single v
  | inr album ↦ elim (Option-cases (lookup m.grouped_id a.groups)) [
    | inl new ↦ rw (album, new) (add_first-IsValid a now m v)
    | inr (st, old) ↦
        rw (album, old)
          (add_member-IsValid a now m v st old
            (All-lookup (λ g. (g.1).first_seen ≤ now) m.grouped_id st a.groups after old))
  ]
]

-- Adding a member of an album loses nothing and duplicates nothing: as multisets, the messages that
-- are still collected and those that the call returns are those that were collected and the new one.
pub add-conserves :
    (a : AlbumAggregator) (now : ℕ) (m : ChannelMessage) (p : ChannelMessage → Bool)
    → IsValid a
    → m.grouped_id ≢ 0
    → m.ref.message_id ≢ 0
    → count_groups p (add a now m).0.groups + count_ready p (add a now m).1
      ≡ count_groups p a.groups + count p (m ∷ [])
unfolding add
add-conserves a now m p v album id = elim (Bool-cases (m.grouped_id == 0)) [
  | inl single ↦ absurd (album (==→eq m.grouped_id 0 single))
  | inr grouped ↦ elim (Option-cases (lookup m.grouped_id a.groups)) [
    | inl new ↦ rw (grouped, new) (add_first-count a now m v p new id)
    | inr (st, old) ↦ rw (grouped, old) (add_member-count a now m v st old p)
  ]
]

split_due-conserves :
    (cfg : AlbumConfig) (now : ℕ) (gs : Groups) (p : ChannelMessage → Bool)
    → count_groups p (split_due cfg now gs).0 + count_all p (split_due cfg now gs).1
      ≡ count_groups p gs
unfolding split_due
split_due-conserves cfg now [] p = omega arith
split_due-conserves cfg now ((gid, st) ∷ gs) p = ground (arith, split_due-conserves cfg now gs p)

split_due-stay :
    (cfg : AlbumConfig) (now : ℕ) (gs : Groups)
    → All (λ g. is_due cfg now g.1 ≡ false) (split_due cfg now gs).0
unfolding split_due
split_due-stay cfg now [] = tt
split_due-stay cfg now ((gid, st) ∷ gs) = elim (Bool-cases (is_due cfg now st)) [
  | inl due ↦ rw due (split_due-stay cfg now gs)
  | inr not_due ↦ rw not_due (not_due, split_due-stay cfg now gs)
]

not_due :
    (cfg : AlbumConfig) (now : ℕ) (st : AlbumState)
    → is_due cfg now st ≡ false
    → (now - st.first_seen < ms cfg.hard_deadline_ms) × ((at : ℕ) → st.timer ≡ some at → now < at)
unfolding is_due deadline_passed
not_due cfg now st h = (ground arith, λ at e. ground arith)

-- A flush of the due groups loses nothing and duplicates nothing, and every group that stays was
-- first seen less than the hard deadline ago and has a timer that has not fired: no album waits for
-- longer than the hard deadline plus the interval between two flushes.
pub flush_due_lem :
    (a : AlbumAggregator) (now : ℕ)
    → ((p : ChannelMessage → Bool)
        → count_groups p (flush_due a now).0.groups + count_all p (flush_due a now).1
          ≡ count_groups p a.groups)
      × All
          (λ g.
            (now - (g.1).first_seen < ms a.cfg.hard_deadline_ms)
            × ((at : ℕ) → (g.1).timer ≡ some at → now < at))
          (flush_due a now).0.groups
unfolding flush_due
flush_due_lem a now = (
  split_due-conserves a.cfg now a.groups,
  All-imp _ _ _ (λ g h. not_due a.cfg now g.1 h) (split_due-stay a.cfg now a.groups),
)

-- ===== src/Forwarding/Album.antt =====
-- internal/forwarding/album.go: albums are collected by their `grouped_id` until a quiet timeout, a
-- hard deadline or the greatest size. Times are nanoseconds of the injected clock; a timer channel
-- is the time at which it fires. A map is an association list, so the groups of one flush come in
-- the order of the list.
pub mod Groups
pub mod Laws
use sakura_nexus.Base.{
  ℕ, ◌+◌, ◌-◌, ◌*◌, Bool, true, false, Option, none, some, List, [], ◌∷◌, ◌++◌, ◌||◌, ltb, leb,
  ◌==◌, if◌then◌else◌, length, map,
}
use sakura_nexus.Base.Assoc.{lookup, put, remove, nat_eq}
use sakura_nexus.Domain.{ChannelMessage, MessageRef}

pub record AlbumConfig : Type 0 where
  pub quiet_ms : ℕ
  pub hard_deadline_ms : ℕ
  pub max_size : ℕ

unfoldable pub default_album_config : AlbumConfig
default_album_config = record { quiet_ms = 450; hard_deadline_ms = 2000; max_size = 10 }

pub record AlbumState : Type 0 where
  pub msgs : List ChannelMessage
  pub first_seen : ℕ
  pub timer : Option ℕ
  pub flushed : Bool

abbrev pub Groups : Type 0
Groups = List (ℕ × AlbumState)

pub record AlbumAggregator : Type 0 where
  pub cfg : AlbumConfig
  pub groups : Groups

-- time.Millisecond
abbrev pub ms : ℕ → ℕ
ms n = n * 1000000

unfoldable pub new_album_aggregator : AlbumConfig → AlbumAggregator
new_album_aggregator cfg = record {
  cfg =
      if cfg.quiet_ms == 0 || (ltb cfg.hard_deadline_ms cfg.quiet_ms || cfg.max_size == 0)
      then default_album_config
      else cfg;
  groups = [];
}

-- The quiet timer restarts with every member and never passes the hard deadline.
unfoldable pub reset_timer : AlbumConfig → ℕ → AlbumState → AlbumState
reset_timer cfg now st =
    let quiet = ms cfg.quiet_ms in
    let remain = ms cfg.hard_deadline_ms - (now - st.first_seen) in
    let d = if ltb remain quiet then remain else quiet in
    if d == 0 then st else record st { timer = some (now + d) }

unfoldable pub deadline_passed : AlbumConfig → ℕ → AlbumState → Bool
deadline_passed cfg now st = leb (ms cfg.hard_deadline_ms) (now - st.first_seen)

-- `flushLocked`: the group leaves the map and its messages are returned.
unfoldable pub flush_group :
    AlbumAggregator → ℕ → AlbumState → AlbumAggregator × Option (List ChannelMessage)
flush_group a gid st = (record a { groups = remove gid a.groups }, some st.msgs)

-- A group that is full or past the hard deadline is flushed, any other is kept.
unfoldable pub keep_or_flush :
    AlbumAggregator → ℕ → ℕ → AlbumState → AlbumAggregator × Option (List ChannelMessage)
unfolding flush_group
keep_or_flush a now gid st =
    if leb a.cfg.max_size (length st.msgs)
    then flush_group a gid st
    else if deadline_passed a.cfg now st
    then flush_group a gid st
    else (record a { groups = put gid st a.groups }, none)

-- A member for an existing group `st`.
unfoldable pub add_member :
    AlbumAggregator
    → ℕ
    → ChannelMessage
    → AlbumState
    → AlbumAggregator × Option (List ChannelMessage)
add_member a now m st =
    if st.flushed
    then (a, none)
    else keep_or_flush a now m.grouped_id
        (reset_timer a.cfg now (record st { msgs = st.msgs ++ m ∷ [] }))

-- The first member of a group.
unfoldable pub add_first :
    AlbumAggregator → ℕ → ChannelMessage → AlbumAggregator × Option (List ChannelMessage)
unfolding flush_group
add_first a now m =
    let st =
      reset_timer a.cfg now
        (record { msgs = m ∷ []; first_seen = now; timer = none; flushed = false }) in
    if m.ref.message_id == 0
    then (a, none)
    else if leb a.cfg.max_size (length st.msgs)
    then flush_group a m.grouped_id st
    else (record a { groups = put m.grouped_id st a.groups }, none)

-- `some group` is the Go result `(group, true)`, `none` is `(nil, false)`.
unfoldable pub add :
    AlbumAggregator → ℕ → ChannelMessage → AlbumAggregator × Option (List ChannelMessage)
unfolding add_member add_first keep_or_flush
add a now m = if m.grouped_id == 0 then (a, none) else elim (lookup m.grouped_id a.groups) [
  | none ↦ add_first a now m
  | some st ↦ add_member a now m st
]

-- The timer channel is ready, or the hard deadline has passed.
unfoldable pub is_due : AlbumConfig → ℕ → AlbumState → Bool
unfolding deadline_passed
is_due cfg now st = elim st.timer [
  | none ↦ deadline_passed cfg now st
  | some at ↦ leb at now || deadline_passed cfg now st
]

-- The loop of `FlushDue` over the groups: those that stay, and those that are flushed.
unfoldable pub split_due : AlbumConfig → ℕ → Groups → Groups × List (List ChannelMessage)
unfolding is_due
split_due cfg now [] = ([], [])
split_due cfg now ((gid, st) ∷ gs) =
    let (stay, out) = split_due cfg now gs in
    if is_due cfg now st then (stay, st.msgs ∷ out) else ((gid, st) ∷ stay, out)

unfoldable pub flush_due : AlbumAggregator → ℕ → AlbumAggregator × List (List ChannelMessage)
unfolding split_due
flush_due a now =
    let (stay, out) = split_due a.cfg now a.groups in (record a { groups = stay }, out)

unfoldable pub flush_all : AlbumAggregator → AlbumAggregator × List (List ChannelMessage)
flush_all a = (record a { groups = [] }, map (λ g. (g.1).msgs) a.groups)

unfoldable pub pending : AlbumAggregator → ℕ
pending a = length a.groups

-- ===== src/Logging/Ring.antt =====
-- internal/logging/ring.go: the ring buffer of log records and its subscribers. A call of `handle` is
-- one step, though the source sends to the subscribers after it has released its lock. A subscriber
-- is the content of its channel.
pub mod Recent
use sakura_nexus.Base.{
  ℕ, suc, ◌+◌, Bool, true, false, List, [], ◌∷◌, ◌++◌, map, if◌then◌else◌, ◌==◌, ltb, length, drop,
}
use sakura_nexus.Base.Text.{Text, text, text_eq}

pub data Value : Type 0 where
  string : Text → Value
  other : ℕ → Value

pub record Attr : Type 0 where
  pub key : Text
  pub value : Value

-- What `slog` hands to the handler.
pub record LogRecord : Type 0 where
  pub time : ℕ
  pub level : ℕ
  pub message : Text
  pub attrs : List Attr

-- `Record`
pub record Entry : Type 0 where
  pub time : ℕ
  pub level : ℕ
  pub component : Text
  pub message : Text
  pub attrs : List Attr

pub record Ring : Type 0 where
  pub buf : List Entry
  pub cap : ℕ
  pub subs : List (List Entry)
  pub closed : Bool

unfoldable pub new_ring : ℕ → Ring
new_ring capacity = record {
  buf = [];
  cap = if capacity == 0 then 1024 else capacity;
  subs = [];
  closed = false;
}

unfoldable pub keep_attr : Entry → Attr → Entry
keep_attr e a = record e { attrs = e.attrs ++ a ∷ [] }

-- A component with a text moves to its field, everything else is kept as an attribute.
unfoldable pub collect : Entry → Attr → Entry
unfolding keep_attr
collect e a = elim a.value [
  | string v ↦
      if text_eq a.key (text "component") then record e { component = v } else keep_attr e a
  | other n ↦ keep_attr e a
]

unfoldable pub collect_all : Entry → List Attr → Entry
unfolding collect
collect_all e [] = e
collect_all e (a ∷ attrs) = collect_all (collect e a) attrs

unfoldable pub entry_of : List Attr → LogRecord → Entry
unfolding collect_all
entry_of preformatted r =
    collect_all
      (collect_all
        (record { time = r.time; level = r.level; component = []; message = r.message; attrs = [] })
        preformatted)
      r.attrs

-- At its capacity the buffer loses its oldest entry.
unfoldable pub push : ℕ → List Entry → Entry → List Entry
push cap buf e = if ltb (length buf) cap then buf ++ e ∷ [] else drop 1 buf ++ e ∷ []

-- The channel of a subscriber holds eight entries; a slow subscriber misses the entry.
unfoldable pub offer : Entry → List Entry → List Entry
offer e pending = if ltb (length pending) 8 then pending ++ e ∷ [] else pending

unfoldable pub handle : Ring → List Attr → LogRecord → Ring
unfolding entry_of push offer
handle r preformatted rec =
    let e = entry_of preformatted rec in
    if r.closed then r else record r { buf = push r.cap r.buf e; subs = map (offer e) r.subs }

unfoldable pub snapshot : Ring → List Entry
snapshot r = r.buf

unfoldable pub subscribe : Ring → Ring
subscribe r = record r { subs = r.subs ++ [] ∷ [] }

unfoldable pub close : Ring → Ring
close r = if r.closed then r else record r { closed = true; subs = [] }

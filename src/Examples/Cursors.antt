-- ===== src/Examples/Cursors.antt =====
-- Runs of the cursor, the album aggregator, the filters and the footer.
use sakura_nexus.Base.{
  ℕ, ◌+◌, ◌-◌, ◌<◌, ◌≤◌, ◌≡◌, ◌↔◌, refl, Bool, true, contains, insert, delete, none, some, List, [],
  ◌∷◌, All, arith,
}
use sakura_nexus.Base.Text.{Text, text}
use sakura_nexus.Domain.{ChannelMessage}
use sakura_nexus.Forwarding.Cursor.{
  new_cursor_tracker, observe, terminal, current, pending, insert_terminal, min_unresolved,
  below_min, pop_terminals,
}
use sakura_nexus.Forwarding.Cursor.Terminal.{
  new_cursor_tracker-IsValid, Advances, terminal-Advances,
}
use sakura_nexus.Forwarding.Cursor.Trace.{
  Call, observed, finished, run, observed_blocks_cursor, settled_cursor, run-forward,
}
use sakura_nexus.Forwarding.Album.{
  new_album_aggregator, AlbumAggregator, ms, default_album_config, add, flush_due,
}
use sakura_nexus.Forwarding.Album.Groups.{count, count_all, count_groups, count_ready}
use sakura_nexus.Forwarding.Album.Laws.{
  IsValid, new_album_aggregator-IsValid, add-IsValid, add-conserves, flush_due_lem,
}
use sakura_nexus.Forwarding.Filters.{should_forward, build_filter_view}
use sakura_nexus.Forwarding.Filters.Sound.{Accepts, should_forward_iff}
use sakura_nexus.Forwarding.Footer.{FooterContext}
use sakura_nexus.Examples.Fixtures.{message, rule, library, source, target}

-- 6 stays open while 7 and 8 are finished.
blocked_example :
    current
      (run (observe (run (new_cursor_tracker 5) []) 6) (observed 7 ∷ finished 7 ∷ finished 8 ∷ []))
    < 6
unfolding new_cursor_tracker current
blocked_example =
    observed_blocks_cursor 5 6 [] (observed 7 ∷ finished 7 ∷ finished 8 ∷ []) (omega arith)
      (tt, ((λ e. omega arith), ((λ e. omega arith), tt)))

abbrev gap : List Call
gap = observed 6 ∷ observed 9 ∷ finished 9 ∷ finished 6 ∷ []

settled_example : current (run (new_cursor_tracker 5) gap) ≡ 9
unfolding new_cursor_tracker observe terminal pending insert delete insert_terminal min_unresolved
    below_min pop_terminals contains
settled_example = settled_cursor 5 gap refl

forward_example : 5 ≤ current (run (new_cursor_tracker 5) gap)
unfolding new_cursor_tracker current
forward_example = run-forward (new_cursor_tracker 5) gap (new_cursor_tracker-IsValid 5)

terminal_example :
    Advances
      (new_cursor_tracker 5)
      8
      (terminal (new_cursor_tracker 5) 8).0
      (terminal (new_cursor_tracker 5) 8).1.1
unfolding new_cursor_tracker
terminal_example =
    terminal-Advances (new_cursor_tracker 5) 8 (new_cursor_tracker-IsValid 5) (omega arith)

conserves_example :
    count_groups
        (λ m. true)
        (add (new_album_aggregator default_album_config) 10 (message 6 3)).0.groups
      + count_ready (λ m. true) (add (new_album_aggregator default_album_config) 10 (message 6 3)).1
    ≡ count_groups (λ m. true) (new_album_aggregator default_album_config).groups
      + count (λ m. true) (message 6 3 ∷ [])
conserves_example =
    add-conserves (new_album_aggregator default_album_config) 10 (message 6 3) (λ m. true)
      (new_album_aggregator-IsValid default_album_config) (λ e. omega arith) (λ e. omega arith)

add_example : IsValid (add (new_album_aggregator default_album_config) 10 (message 6 3)).0
unfolding new_album_aggregator
add_example =
    add-IsValid (new_album_aggregator default_album_config) 10 (message 6 3)
      (new_album_aggregator-IsValid default_album_config) tt

abbrev collecting : AlbumAggregator
collecting = (add (new_album_aggregator default_album_config) 10 (message 6 3)).0

flush_example :
    ((p : ChannelMessage → Bool)
      → count_groups p (flush_due collecting 500000000).0.groups
          + count_all p (flush_due collecting 500000000).1
        ≡ count_groups p collecting.groups)
    × All
        (λ g.
          (500000000 - (g.1).first_seen < ms collecting.cfg.hard_deadline_ms)
          × ((at : ℕ) → (g.1).timer ≡ some at → 500000000 < at))
        (flush_due collecting 500000000).0.groups
flush_example = flush_due_lem collecting 500000000

forward_rule_example :
    (should_forward library rule (build_filter_view (message 6 0 ∷ [])) ≡ none)
    ↔ Accepts library rule (build_filter_view (message 6 0 ∷ []))
forward_rule_example = should_forward_iff library rule (build_filter_view (message 6 0 ∷ []))

abbrev footer : FooterContext
footer = record {
  source = source;
  source_username = text "news";
  source_title = [];
  target = target;
  target_username = [];
  target_title = [];
  message_id = 9;
  assistant_bot = [];
}

abbrev blank : Text
blank = []

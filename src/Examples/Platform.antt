-- ===== src/Examples/Platform.antt =====
-- Runs of the splitting of rich messages and of the login.
use sakura_nexus.Base.{
  ℕ, ◌+◌, ◌≡◌, ◌↔◌, refl, true, false, none, some, List, [], ◌∷◌, All, arith, ltb, map,
  if◌then◌else◌,
}
use sakura_nexus.Base.Assoc.{lookup}
use sakura_nexus.Base.Text.{Text, text, text_eq, is_empty, join}
use sakura_nexus.Telegram.RichBlock.{RichBlock, paragraph, split_lines}
use sakura_nexus.Telegram.RichSplit.{
  parts, rich_messages, chunk_lines, split_line_block, wrap_lines, any_broken, build_queue,
  assemble, emit_chunk, newline, is_broken, empty_acc, acc_fits, acc_add, acc_emit, flush_acc,
}
use sakura_nexus.Telegram.RichSplit.Parts.{IsSmall}
use sakura_nexus.Telegram.RichSplit.Rejoin.{split_line_block-lossless}
use sakura_nexus.Telegram.RichSplit.Fits.{IsSmallText, rich_messages-IsSmall}
use sakura_nexus.Logging.Ring.{LogRecord, new_ring, snapshot}
use sakura_nexus.Logging.Ring.Recent.{
  Use, logged, subscribed, use_ring, latest, entries, snapshot-latest,
}
use sakura_nexus.Availability.{Tracker, ready, unavailable, new_tracker, set_ready, subscribe_state}
use sakura_nexus.Availability.Fresh.{Holds, start, by_set, by_subscribe, Reachable-IsFresh}
use sakura_nexus.Webapi.Auth.{
  Server, LoginRequest, session_ttl, create, valid, drop_session, locked, credentials_ok,
  handle_login, handle_logout, require_session, reply, auth_locked, unauthorized,
}
use sakura_nexus.Webapi.Auth.Sessions.{session_lifetime, login-require_session}
use sakura_nexus.Webapi.Auth.Login.{IsLocked, IsRight, handle_login-status}
use sakura_nexus.Webapi.Auth.Limiter.{Attempt, attempts, last_now, five_wrong_logins-lock}

abbrev block : Text → RichBlock
block s = record { kind = paragraph; content = s; depth = 1; count = 1; media_count = 0; cols = 0 }

abbrev document : List RichBlock
document = block (text "one") ∷ block (text "two") ∷ []

document_messages : rich_messages document ≡ parts (text "one\n\ntwo" ∷ [])
unfolding rich_messages any_broken is_broken build_queue assemble empty_acc acc_fits acc_add
    acc_emit flush_acc join is_empty
document_messages = refl

small_example : All IsSmallText (text "one\n\ntwo" ∷ [])
small_example = rich_messages-IsSmall document (text "one\n\ntwo" ∷ []) document_messages

abbrev two_lines : RichBlock
two_lines = block (text "ab\ncd")

two_lines_split : split_line_block two_lines ≡ parts (two_lines ∷ [])
unfolding split_line_block chunk_lines emit_chunk wrap_lines split_lines join
two_lines_split = refl

lines_example :
    (join newline (map (λ p. p.content) (two_lines ∷ [])) ≡ text "ab\ncd")
    × All (λ p. p.kind ≡ paragraph) (two_lines ∷ [])
    × All IsSmall (two_lines ∷ [])
lines_example = split_line_block-lossless two_lines (two_lines ∷ []) two_lines_split

abbrev server : Server
server = record {
  username = text "admin";
  password = text "pw";
  sessions = [];
  fails = [];
  has_audit_sink = true;
  audited = [];
}

abbrev right : LoginRequest
right = record { username = text "admin"; password = text "pw" }

abbrev wrong : Attempt
wrong = (3, 3, record { username = text "admin"; password = text "x" })

abbrev five : List Attempt
five = wrong ∷ wrong ∷ wrong ∷ wrong ∷ wrong ∷ []

lifetime_example :
    ((valid (create [] 5 (text "t")).0 9 (text "t")).1 ≡ ltb 9 (5 + session_ttl))
    × ((valid (drop_session [] (text "t")) 9 (text "t")).1 ≡ false)
    × ((valid (create [] 5 (text "t")).0 9 (text "u")).1 ≡ (valid [] 9 (text "u")).1)
    × ((valid (drop_session [] (text "t")) 9 (text "u")).1 ≡ (valid [] 9 (text "u")).1)
unfolding is_empty
lifetime_example = session_lifetime [] 5 9 (text "t") (text "u") refl (λ e. ground (arith, e))

status_example :
    (((handle_login server 1 2 (text "ip") false (some right) (text "t")).1.status ≡ 429)
      ↔ IsLocked server.fails 1 (text "ip"))
    × (((handle_login server 1 2 (text "ip") false (some right) (text "t")).1.status ≡ 200)
        ↔ ((¬ IsLocked server.fails 1 (text "ip")) × IsRight server (some right)))
status_example = handle_login-status server 1 2 (text "ip") false (some right) (text "t")

abbrev logged_in : Server
logged_in = (handle_login server 1 2 (text "ip") false (some right) (text "t")).0

login_example :
    ((require_session logged_in 9 (some (text "t"))).1
      ≡ (if ltb 9 (2 + session_ttl) then none else some (reply 401 unauthorized)))
    × ((require_session (handle_logout logged_in (some (text "t")) false).0 9 (some (text "t"))).1
        ≡ some (reply 401 unauthorized))
unfolding is_empty locked lookup credentials_ok text_eq
login_example = login-require_session server 1 2 9 (text "ip") false right (text "t") refl refl refl

lock_example :
    handle_login
      (attempts server (text "ip") false (text "t") five)
      4
      4
      (text "ip")
      false
      (some right)
      (text "t")
    ≡ (attempts server (text "ip") false (text "t") five, reply 429 auth_locked)
unfolding lookup credentials_ok text_eq last_now
lock_example =
    five_wrong_logins-lock server 4 4 (text "ip") false (text "t") five (some right) refl
      (omega arith) (refl, (refl, (refl, (refl, (refl, tt))))) (omega arith)

abbrev log_record : ℕ → LogRecord
log_record t = record { time = t; level = 0; message = text "m"; attrs = [] }

abbrev uses : List Use
uses =
    logged [] (log_record 1) ∷ subscribed ∷ logged [] (log_record 2) ∷ logged [] (log_record 3) ∷ []

ring_example : snapshot (use_ring (new_ring 2) uses) ≡ latest 2 (entries uses)
ring_example = snapshot-latest 2 uses

abbrev tracker : Tracker
tracker = set_ready (subscribe_state (new_tracker unavailable)) ready

fresh_example : All (Holds tracker.state) tracker.subs
fresh_example = Reachable-IsFresh tracker (
    by_set (subscribe_state (new_tracker unavailable)) ready
      (by_subscribe (new_tracker unavailable) (start unavailable)))

-- ===== src/Forwarding/Engine/Execute.antt =====
-- internal/forwarding/engine.go: the consumer's side. One task: the delay, the rewriting, the footer,
-- the sending with its retries, and the accounts that follow.
pub mod Outcome
use sakura_nexus.Base.{
  ℕ, suc, ◌+◌, Bool, true, false, not, ◌&&◌, ◌||◌, Option, none, some, List, [], ◌∷◌, ◌++◌, any,
  map, if◌then◌else◌, ◌==◌, ltb,
}
use sakura_nexus.Base.Text.{Text, text, text_eq, is_empty, has_prefix, decimal}
use sakura_nexus.Domain.{
  ChatRef, MessageRef, MediaRef, ChannelMessage, ForwardRule, SendRequest, LocalFile, SentMessage,
  Entity, SendStyle, auto, msg_id,
}
use sakura_nexus.Forwarding.Filters.{lower}
use sakura_nexus.Forwarding.Footer.{FooterContext, render_footer, choose_footer}
use sakura_nexus.Forwarding.Engine.State.{
  Deps, Engine, SendTask, Found, lookup_error, missing, found, ForwardingParams, Failure,
  media_too_large, media_not_wired, temp_dir, FailureKind, transient, permanent, Result, ok, err,
  classify_failure, delay_for, send_retry_backoff,
}
use sakura_nexus.Forwarding.Engine.Retry.{send_with_retry}
use sakura_nexus.Forwarding.Engine.Process.{finish_terminals}

-- `CopyMode == "forward"`
unfoldable pub is_forward_mode : ForwardRule → Bool
is_forward_mode rule = text_eq rule.copy_mode (text "forward")

-- The least id of the group `m ∷ msgs`.
unfoldable pub min_message_id : ℕ → List ChannelMessage → ℕ
min_message_id least [] = least
min_message_id least (m ∷ msgs) =
    min_message_id (if ltb m.ref.message_id least then m.ref.message_id else least) msgs

abbrev pub has_any {ℓ} : {A : Type ℓ} → List A → Bool
has_any [] = false
has_any (x ∷ xs) = true

unfoldable pub has_media : List ChannelMessage → Bool
has_media msgs = any (λ m. has_any m.media) msgs

unfoldable pub source_ids : List ChannelMessage → List ℕ
source_ids msgs = map msg_id msgs

-- `strings.LastIndexByte(name, '.')` as the part before the last dot and the rest from it on.
unfoldable pub split_last_dot : Text → Option (Text × Text)
split_last_dot [] = none
split_last_dot (c ∷ s) = elim (split_last_dot s) [
  | some (before, ext) ↦ some (c ∷ before, ext)
  | none ↦ if c == b'.' then some ([], c ∷ s) else none
]

unfoldable pub mime_ext : Text → Text → Text
mime_ext mime type =
    if text_eq mime (text "image/jpeg")
    then text ".jpg"
    else if text_eq mime (text "image/png")
    then text ".png"
    else if text_eq mime (text "image/webp")
    then text ".webp"
    else if text_eq mime (text "image/gif")
    then text ".gif"
    else if text_eq mime (text "video/mp4")
    then text ".mp4"
    else if text_eq type (text "photo")
    then text ".jpg"
    else []

-- The source's first message of a task; a task holds at least one.
abbrev pub first_chat : ForwardRule → List ChannelMessage → ChatRef
first_chat rule [] = rule.source
first_chat rule (m ∷ msgs) = m.ref.chat_ref

abbrev pub first_id : List ChannelMessage → ℕ
first_id [] = 0
first_id (m ∷ msgs) = min_message_id m.ref.message_id msgs

module _ {W : Type 0} (d : Deps W) where
  unfoldable pub media_ext : MediaRef → Text
  unfolding split_last_dot mime_ext
  media_ext m = elim (split_last_dot m.file_name) [
    | some (before, ext) ↦ if is_empty before then mime_ext m.mime_type m.type else lower d.lib ext
    | none ↦ mime_ext m.mime_type m.type
  ]

  -- `filepath.Join(root, name)` of a clean root and a name without separators.
  unfoldable pub temp_media_path : Text → ChannelMessage → MediaRef → Text
  unfolding media_ext
  temp_media_path root m media =
      root
      ++ (text "/"
          ++ (decimal m.ref.chat_ref.id
              ++ (text "_"
                  ++ (decimal m.ref.message_id ++ (text "_" ++ (media.key ++ media_ext media))))))

  unfoldable pub rewrite_if_enabled : SendTask → W → SendTask × W
  rewrite_if_enabled t w =
      if not t.rule.ai_enabled || is_forward_mode t.rule then (t, w) else elim d.rewrite [
        | none ↦ (t, w)
        | some rewriter ↦
            let (answer, w') = rewriter t.rule t.view w in
            elim answer [
              | none ↦ (t, w')
              | some body ↦
                  (if is_empty body then t else record t { body = body; entities = [] }, w')
            ]
      ]

  -- Username and title of a channel, empty where it is not known.
  abbrev pub names : Found → Text × Text
  names lookup_error = ([], [])
  names missing = ([], [])
  names (found ch) = (ch.username, ch.title)

  unfoldable pub footer_context : SendTask → W → FooterContext × W
  footer_context t w =
      let source = first_chat t.rule t.msgs in
      let bot : Text = elim d.assistant_bot_fn [ none ↦ d.assistant_bot | some f ↦ f w ] in
      let fc : FooterContext = record {
        source = source;
        source_username = [];
        source_title = [];
        target = t.rule.target;
        target_username = [];
        target_title = [];
        message_id = first_id t.msgs;
        assistant_bot = bot;
      } in
      elim d.get_channel [
        | none ↦ (fc, w)
        | some get ↦
            let (src, w1) = get source.id w in
            let (dst, w2) = get t.rule.target.id w1 in
            (
              record fc {
                source_username = (names src).0;
                source_title = (names src).1;
                target_username = (names dst).0;
                target_title = (names dst).1;
              },
              w2,
            )
      ]

  unfoldable pub append_footer : ForwardingParams → SendTask → W → SendTask × W
  unfolding footer_context
  append_footer p t w =
      let template = choose_footer t.rule p.show_default_footer in
      let (fc, w') = footer_context t w in
      if is_forward_mode t.rule || is_empty template
      then (t, w)
      else (record t { body = t.body ++ (text "\n\n" ++ render_footer template fc) }, w')

  -- Some medium declares more than the limit; 0 is no limit.
  unfoldable pub declares_too_large : ℕ → List ChannelMessage → Bool
  declares_too_large max_size msgs =
      ltb 0 max_size && any (λ m. any (λ media. ltb max_size media.size) m.media) msgs

  module _ (download : ChannelMessage → MediaRef → Text → W → Result MediaRef × W)
      (dir : Text) where
    unfoldable pub download_media :
        ChannelMessage → List MediaRef → List LocalFile → W → Result (List LocalFile) × W
    download_media m [] files w = (ok files, w)
    download_media m (media ∷ rest) files w =
        let dest = temp_media_path dir m media in
        let (r, w') = download m media dest w in
        elim r [
          | err e ↦ (err e, w')
          | ok fresh ↦ download_media m rest (files ++ record { path = dest; meta = fresh } ∷ []) w'
        ]

    unfoldable pub download_all :
        List ChannelMessage → List LocalFile → W → Result (List LocalFile) × W
    unfolding download_media
    download_all [] files w = (ok files, w)
    download_all (m ∷ msgs) files w =
        let (r, w') = download_media m m.media files w in
        elim r [ err e ↦ (err e, w') | ok files' ↦ download_all msgs files' w' ]

  -- The request to the rule's target; `caption` for files, `body` for text.
  unfoldable pub request : SendTask → Text → Text → SendRequest
  request t body caption = record {
    chat_ref = t.rule.target;
    style = auto;
    content = none;
    body = body;
    entities = t.entities;
    media = [];
    caption = caption;
    reply_to = 0;
    markup = none;
    silent = false;
  }

  -- The temporary directory is removed on every way out.
  unfoldable pub send_as_files : ForwardingParams → SendTask → W → Result SentMessage × W
  unfolding declares_too_large download_all request
  send_as_files p t w = elim d.download_media [
    | none ↦ (err media_not_wired, w)
    | some download ↦
        let (dir, w1) = d.make_temp_dir w in
        if declares_too_large p.media_max_size_bytes t.msgs
        then (err media_too_large, w)
        else elim dir [
          | none ↦ (err temp_dir, w1)
          | some root ↦
              let (files, w2) = download_all download root t.msgs [] w1 in
              elim files [
                | err e ↦ (err e, d.remove_temp_dir root w2)
                | ok fs ↦
                    let (r, w3) = d.send_files (request t [] t.body) fs w2 in
                    (r, d.remove_temp_dir root w3)
              ]
        ]
  ]

  unfoldable pub send_once : ForwardingParams → SendTask → W → Result SentMessage × W
  unfolding send_as_files request
  send_once p t w =
      if is_forward_mode t.rule
      then d.forward_messages (first_chat t.rule t.msgs) (source_ids t.msgs) t.rule.target w
      else if has_media t.msgs
      then send_as_files p t w
      else d.send_text (request t t.body []) w

  -- The loop that records every member of the group.
  unfoldable pub record_all : SendTask → ℕ → List ChannelMessage → W → W
  record_all t sent_id [] w = w
  record_all t sent_id (m ∷ msgs) w =
      record_all t sent_id msgs
        (d.record_sent m.ref t.rule.target t.rule.id sent_id t.content_hash w)

  -- After the sending: `t` is the task that was sent.
  unfoldable pub settle : Engine → SendTask → Result SentMessage → W → Engine × W
  unfolding record_all
  settle e t (ok sent) w =
      finish_terminals d e t.rule t.msgs
        (d.incr_stats t.rule.id true (record_all t sent.message_id t.msgs w))
  settle e t (err failure) w =
      if d.is_cancelled w then (e, w) else elim (classify_failure d failure) [
        | permanent ↦ finish_terminals d e t.rule t.msgs (d.incr_stats t.rule.id false w)
        | transient ↦ (e, d.incr_stats t.rule.id false w)
      ]

  -- The task as it is sent: rewritten, with its footer.
  unfoldable pub prepare : ForwardingParams → SendTask → W → SendTask × W
  unfolding rewrite_if_enabled append_footer
  prepare p t w = let (t1, w1) = rewrite_if_enabled t w in append_footer p t1 w1

  unfoldable pub send_prepared : ForwardingParams → SendTask → W → Result SentMessage × W
  unfolding send_once send_with_retry
  send_prepared p t w =
      send_with_retry (send_once p t) (classify_failure d) d.sleep send_retry_backoff w

  unfoldable pub execute : Engine → SendTask → W → Engine × W
  execute e t w =
      let (delay, w1) = delay_for d e.params t.rule w in
      let (awake, w2) = d.sleep delay w1 in
      let (t', w3) = prepare e.params t w2 in
      let (r, w4) = send_prepared e.params t' w3 in if awake then settle e t' r w4 else (e, w2)

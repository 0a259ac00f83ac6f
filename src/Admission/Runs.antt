-- ===== src/Admission/Runs.antt =====
-- handler.go and client.go: a connection, from its ticket to its end, makes steps of the hub.
use gomsg.Prelude.{
  ℕ, Text, Bool, true, false, Option, none, some, List, [], ◌∷◌, map, ◌≡◌, refl, sym, ap, subst,
  ◌∙◌, arith, String, text_eq_refl, trim_space, any_row, delete_rows, ◌==◌, if◌then◌else◌,
}
use gomsg.Json.{Json}
use gomsg.Errors.{is_not_found}
use gomsg.Result.{Result, ok, fail}
use gomsg.Domain.{ChatMember}
use gomsg.Store.{Env, World}
use gomsg.Uuid.{parse_id}
use gomsg.Repository.Chats.{find_membership, get_chat_members}
use gomsg.Hub.{
  Hub, Entry, has_ref, set_of, put_set, add_ref, delete_set, lookup_set, without_ref, is_nil,
  set_or_empty, dec, new_client, register, unregister, send_to_user, reply,
}
use gomsg.Hub.Gauge.{Reach, later, connect, disconnect, send, answer}
use gomsg.Broadcaster.{send_to_members, deliver_payload, publish_to_chat, to_found}
use gomsg.Service.Sockets.{
  WsService, Decoder, SendData, handle_event, handle_message_send, handle_message_read,
  handle_typing, typing_parsed, typing_found, note_activity,
}
use gomsg.Service.Sockets.Frames.{answer-hub, if-cases}
use gomsg.Service.Sockets.Events.{dispatch-cases}
use gomsg.Admission.{Handler, connected, serve}
use gomsg.Admission.Tickets.{serve-Admitted}
use gomsg.Admission.Pump.{read_frames, read_pump}

module _ (met : Bool) where
  -- `k` comes from `h` by steps that register and unregister no connection.
  pub record Follows (h k : Hub) : Type 0 where
    pub same : k.clients ≡ h.clients
    pub reach : Reach met h → Reach met k

  stays-Follows : (h : Hub) → Follows h h
  stays-Follows h = record { same = refl; reach = λ r. r }

  send_to_members-Follows :
      (ms : List ChatMember) (p : Json) (h : Hub) → Follows h (send_to_members ms p h)
  unfolding send_to_members send_to_user
  send_to_members-Follows [] p h = stays-Follows h
  send_to_members-Follows (m ∷ ms) p h =
      let f = send_to_members-Follows ms p (send_to_user m.user_id p h) in
      record { same = f.same; reach = λ r. f.reach (later r (send m.user_id p h)) }

  deliver_payload-Follows :
      (env : Env) (chat : Text) (p : Json) (w : World) (h : Hub)
      → Follows h (deliver_payload env chat p w h).2
  unfolding deliver_payload
  deliver_payload-Follows env chat p w h = go (get_chat_members env chat w)
    where
      go : (r : Result (List ChatMember) × World) → Follows h (to_found p h r).2
      go (ok ms, v) = send_to_members-Follows ms p h
      go (fail e, v) = stays-Follows h

  publish_to_chat-Follows :
      (env : Env) (to : Option (Text → Json → Result (Unit {0}))) (chat : Text) (event : String)
      (content meta : Option Json) (w : World) (h : Hub)
      → Follows h (publish_to_chat env to chat event content meta w h).2
  unfolding publish_to_chat
  publish_to_chat-Follows env none chat event content meta w h =
      deliver_payload-Follows env chat _ w h
  publish_to_chat-Follows env (some f) chat event content meta w h = stays-Follows h

  module _ (env : Env) (svc : WsService) (dec : Decoder) (user : Text) where
    typing_found-Follows :
        (meta : Option Json) (stop : Bool) (chat : Text) (r : Result ChatMember × World) (h : Hub)
        → Follows h (typing_found env svc user meta stop chat r h).2
    unfolding typing_found
    typing_found-Follows meta stop chat (ok m, v) h =
        publish_to_chat-Follows env svc.pub_redis chat _ _ meta _ h
    typing_found-Follows meta stop chat (fail e, v) h =
        if-cases (λ a. Follows h a.2) (is_not_found e) _ _ (stays-Follows h) (stays-Follows h)

    handle_typing-Follows :
        (meta : Option Json) (stop : Bool) (d : Option Text) (w : World) (h : Hub)
        → Follows h (handle_typing env svc user meta stop d w h).2
    unfolding handle_typing
    handle_typing-Follows meta stop none w h = stays-Follows h
    handle_typing-Follows meta stop (some raw) w h =
        go (parse_id "invalid chat_id" (trim_space raw))
      where
        go : (r : Result Text) → Follows h (typing_parsed env svc user meta stop r w h).2
        go (ok c) = typing_found-Follows meta stop c (find_membership env c user w) h
        go (fail e) = stays-Follows h

    handle_event-Follows :
        (payload : Text) (w : World) (h : Hub)
        → Follows h (handle_event env svc dec user payload w h).2
    unfolding handle_event handle_message_send handle_message_read
    handle_event-Follows payload w h =
        if-cases (λ a. Follows h a.2) (dec.is_envelope payload) _ _
          (dispatch-cases env svc dec user (λ a. Follows h a.2) (dec.envelope payload)
            (note_activity env svc.presence user w) h (λ f. stays-Follows h) sent been_read
            (λ stop d. handle_typing-Follows _ stop d _ h))
          (stays-Follows h)
      where
        v : World
        v = note_activity env svc.presence user w

        meta : Option Json
        meta = (dec.envelope payload).meta

        sent : (d : Option SendData) → Follows h (handle_message_send env svc user meta d v h).2
        sent none = stays-Follows h
        sent (some d) = subst (Follows h) (sym (answer-hub svc meta h _)) (stays-Follows h)

        been_read : (d : Option Text) → Follows h (handle_message_read env svc user meta d v h).2
        been_read none = stays-Follows h
        been_read (some d) = subst (Follows h) (sym (answer-hub svc meta h _)) (stays-Follows h)

    reply-clients :
        (r : ℕ) (outs : List (Option Json)) (h : Hub) → (reply r outs h).clients ≡ h.clients
    unfolding reply
    reply-clients r [] h = refl
    reply-clients r (none ∷ outs) h = reply-clients r outs h
    reply-clients r (some p ∷ outs) h = reply-clients r outs _

    read_frames-Follows :
        (r : ℕ) (messages : List Text) (w : World) (h : Hub)
        → Follows h (read_frames env svc dec r user messages w h).1
    unfolding read_frames
    read_frames-Follows r [] w h = stays-Follows h
    read_frames-Follows r (m ∷ ms) w h =
        let a = handle_event env svc dec user m w h in
        let e = handle_event-Follows m w h in
        let f = read_frames-Follows r ms a.1 (reply r (map some a.0) a.2) in
        record {
          same = f.same ∙ reply-clients r (map some a.0) a.2 ∙ e.same;
          reach = λ x. f.reach (later (e.reach x) (answer r (map some a.0) a.2));
        }

set_of-put_set : (u : Text) (s : List ℕ) (es : List Entry) → set_of u (put_set u s es) ≡ s
unfolding put_set gomsg.Hub.lookup_set
set_of-put_set u s [] = ground (arith, text_eq_refl u)
set_of-put_set u s (e ∷ es) = ground (arith, set_of-put_set u s es)

has_ref-add_ref : (r : ℕ) (s : List ℕ) → has_ref r (add_ref r s) ≡ true
unfolding any_row
has_ref-add_ref r s = go (has_ref r s) refl
  where
    go : (b : Bool) → has_ref r s ≡ b → has_ref r (if b then s else r ∷ s) ≡ true
    go true e = e
    go false e = ground arith

registered_here :
    (r : ℕ) (u : Text) (h : Hub) → has_ref r (set_of u (register r u h).clients) ≡ true
unfolding register
registered_here r u h =
    ap (has_ref r) (set_of-put_set u (add_ref r (set_of u h.clients)) h.clients)
    ∙ has_ref-add_ref r (set_of u h.clients)

delete_set-gone : (u : Text) (es : List Entry) → set_of u (delete_set u es) ≡ []
unfolding lookup_set delete_rows
delete_set-gone u [] = refl
delete_set-gone u (e ∷ es) = ground (arith, delete_set-gone u es)

has_ref-delete_rows : (r : ℕ) (s : List ℕ) → has_ref r (delete_rows (λ x. r == x) s) ≡ false
unfolding any_row delete_rows
has_ref-delete_rows r [] = refl
has_ref-delete_rows r (x ∷ s) = ground (arith, has_ref-delete_rows r s)

without_ref-gone :
    (r : ℕ) (u : Text) (s : List ℕ) (es : List Entry)
    → has_ref r (set_of u (without_ref r u s es)) ≡ false
unfolding without_ref any_row
without_ref-gone r u s es = go (is_nil left)
  where
    left : List ℕ
    left = delete_rows (λ x. r == x) s

    go :
        (b : Bool) → has_ref r (set_of u (if b then delete_set u es else put_set u left es)) ≡ false
    go true = ap (has_ref r) (delete_set-gone u es)
    go false = ap (has_ref r) (set_of-put_set u left es) ∙ has_ref-delete_rows r s

unregister-gone :
    (r : ℕ) (u : Text) (h : Hub) → has_ref r (set_of u (unregister r u h).clients) ≡ false
unfolding unregister any_row
unregister-gone r u h = go (lookup_set u h.clients) refl
  where
    go :
        (o : Option (List ℕ))
        → lookup_set u h.clients ≡ o
        → has_ref r (
            set_of u (
              Hub.clients (elim o [
                | none ↦ h
                | some s ↦ record h {
                  clients = without_ref r u s h.clients;
                  ws_active = if h.met then dec h.ws_active else h.ws_active;
                }
              ])))
          ≡ false
    go none e = ap (λ o. has_ref r (set_or_empty o)) e
    go (some s) e = without_ref-gone r u s h.clients

-- Where the handler opens a connection on a reachable hub, the hub is reachable then, and again when the
-- readPump of the connection has ended, whatever messages it has read: the registration, the frames and
-- payloads that answer the messages, and the end of the connection are steps of the hub. The connection
-- is registered for its user when it is opened and when it has read its messages, and is not at its end.
pub read_pump-Reach :
    (env env' : Env) (svc : WsService) (dec : Decoder) (h : Handler) (up : Bool)
    (origin ticket : Text) (w v : World) (hub : Hub) (uid : Text) (ref : ℕ) (messages : List Text)
    (met : Bool)
    → (serve env h up origin ticket w hub).0 ≡ connected uid ref
    → Reach met hub
    → let opened = (serve env h up origin ticket w hub).2 in
      let read = (read_frames env' svc dec ref uid messages v opened).1 in
      let ended = (read_pump env' svc dec h.presence ref uid messages v opened).1 in
      (Reach met opened × (has_ref ref (set_of uid opened.clients) ≡ true))
      × (Reach met read × (has_ref ref (set_of uid read.clients) ≡ true))
      × (Reach met ended × (has_ref ref (set_of uid ended.clients) ≡ false))
unfolding read_pump
read_pump-Reach env env' svc dec h up origin ticket w v hub uid ref messages met e reached =
    let a = serve-Admitted env h up origin ticket w hub uid ref e in
    let opened = (serve env h up origin ticket w hub).2 in
    let f = read_frames-Follows met env' svc dec uid ref messages v opened in
    let here = came a.registered.0 a.registered.1 in
    let there = left a.registered.1 in
    let kept = ap (λ es. has_ref ref (set_of uid es)) f.same ∙ there in
    (
      (here, there),
      (f.reach here, kept),
      (later (f.reach here) (disconnect ref uid _ kept), unregister-gone ref uid _),
    )
  where
    came :
        ref ≡ (new_client uid hub).0
        → (serve env h up origin ticket w hub).2 ≡ register ref uid (new_client uid hub).1
        → Reach met (serve env h up origin ticket w hub).2
    came r s = subst (Reach met) (sym s) (
        subst (λ x. Reach met (register x uid (new_client uid hub).1)) (sym r)
          (later reached (connect uid hub)))

    left :
        (serve env h up origin ticket w hub).2 ≡ register ref uid (new_client uid hub).1
        → has_ref ref (set_of uid (serve env h up origin ticket w hub).2.clients) ≡ true
    left s =
        subst (λ (x : Hub). has_ref ref (set_of uid x.clients) ≡ true) (sym s)
          (registered_here ref uid (new_client uid hub).1)

-- ===== src/Service/Sockets/Frames.antt =====
-- ws_service.go: what the handler of a single event can change, and what it sends.
use gomsg.Prelude.{
  String, Text, Bool, true, false, Option, none, some, [], ◌≡◌, ◌≢◌, refl, ◌∙◌, if◌then◌else◌,
  trim_space,
}
use gomsg.Json.{Json}
use gomsg.Errors.{Error, is_not_found}
use gomsg.Result.{Result, ok, fail}
use gomsg.Domain.{ChatMember}
use gomsg.Store.Outcome.{Yields}
use gomsg.Store.Steps.{Yields-of_query}
use gomsg.Tables.Chats.{select_membership}
use gomsg.Store.{Env, Db, Go, World}
use gomsg.Store.Effects.{ReadOnly, ReadOnly-if, IsAtomic, reads}
use gomsg.Hub.{Hub}
use gomsg.Uuid.{parse_id}
use gomsg.Repository.Chats.{find_membership}
use gomsg.Broadcaster.{marshal_envelope, deliver_payload, publish_to_chat}
use gomsg.Redis.Presence.{start_typing, stop_typing, seen_online, set_online}
use gomsg.Service.Messages.Atomicity.{create-IsAtomic, mark_read-IsAtomic}
use gomsg.Service.Sockets.{
  keep_typing, WsService, SendData, Answer, answer, handle_message_send, handle_message_read,
  typing_found, typing_parsed, handle_typing, note_activity,
}

seen_online-ReadOnly : (env : Env) (on : Bool) (user : Text) → ReadOnly (seen_online env on user)
unfolding seen_online set_online
seen_online-ReadOnly env on user = search (reads, ReadOnly-if) depth 12

start_typing-ReadOnly : (env : Env) (on : Bool) (c u : Text) → ReadOnly (start_typing env on c u)
unfolding start_typing
start_typing-ReadOnly env on c u = search (reads, ReadOnly-if) depth 12

stop_typing-ReadOnly : (env : Env) (on : Bool) (c u : Text) → ReadOnly (stop_typing env on c u)
unfolding stop_typing
stop_typing-ReadOnly env on c u = search (reads, ReadOnly-if) depth 12

find_membership-ReadOnly : (env : Env) (c u : Text) → ReadOnly (find_membership env c u)
unfolding find_membership
find_membership-ReadOnly env c u = search reads

find_membership-finds :
    (env : Env) (c u : Text) (d : Db)
    → Yields d (λ m _. select_membership c u d ≡ ok m) (find_membership env c u)
unfolding find_membership
find_membership-finds env c u d = Yields-of_query env (select_membership c u)

pub note_activity-db :
    (env : Env) (p : Option Bool) (user : Text) (w : World) → (note_activity env p user w).db ≡ w.db
unfolding note_activity
note_activity-db env none user w = refl
note_activity-db env (some on) user w = (seen_online-ReadOnly env on user).same w

answer-db :
    {A : Type 0} (svc : WsService) (meta : Option Json) (h : Hub) (m : Go A) (w : World)
    → IsAtomic m
    → (answer svc meta h (m w)).0 ≢ []
    → (answer svc meta h (m w)).1.db ≡ w.db
unfolding answer
answer-db {A} svc meta h m w a = go (m w).0 (m w).1 refl (λ e p. a.same w e p)
  where
    go :
        (r : Result A) (v : World)
        → (m w).0 ≡ r
        → ((e : Error) → (m w).0 ≡ fail e → v.db ≡ w.db)
        → (answer svc meta h (r, v)).0 ≢ []
        → (answer svc meta h (r, v)).1.db ≡ w.db
    go (ok x) v p q n = absurd (n refl)
    go (fail e) v p q n = q e p

-- An answer that holds a frame goes with the tables `w` had.
abbrev pub IsQuiet : World → Answer → Type 0
IsQuiet w a = a.0 ≢ [] → a.1.db ≡ w.db

-- What has reached the hub `h`: no frame answers, and the members of one chat, of which the user is a
-- member, have been sent one payload, by the tables `w` has.
pub record Reach (env : Env) (user : Text) (w : World) (h : Hub) (a : Answer) : Type 0 where
  pub no_frame : a.0 ≡ []
  pub chat : Text
  pub row : ChatMember
  pub member : select_membership chat user w.db ≡ ok row
  pub payload : Json
  pub at : World
  pub tables : at.db ≡ w.db
  pub sent : a.2 ≡ (deliver_payload env chat payload at h).2

abbrev pub Reaches : Env → Text → World → Hub → Answer → Type 0
Reaches env user w h a = a.2 ≢ h → Reach env user w h a

pub if-cases : (P : Answer → Type 0) (b : Bool) (x y : Answer) → P x → P y → P (if b then x else y)
if-cases P true x y px py = px
if-cases P false x y px py = py

pub answer-hub :
    {A : Type 0} (svc : WsService) (meta : Option Json) (h : Hub) (r : Result A × World)
    → (answer svc meta h r).2 ≡ h
unfolding answer
answer-hub svc meta h (ok a, w) = refl
answer-hub svc meta h (fail e, w) = refl

module _ (env : Env) (svc : WsService) (user : Text) (meta : Option Json) where
  pub send-IsQuiet :
      (d : Option SendData) (w : World) (h : Hub)
      → IsQuiet w (handle_message_send env svc user meta d w h)
  unfolding handle_message_send
  send-IsQuiet none w h = λ _. refl
  send-IsQuiet (some d) w h = answer-db svc meta h _ w (create-IsAtomic env svc.msgs user _ _)

  pub read-IsQuiet :
      (d : Option Text) (w : World) (h : Hub)
      → IsQuiet w (handle_message_read env svc user meta d w h)
  unfolding handle_message_read
  read-IsQuiet none w h = λ _. refl
  read-IsQuiet (some d) w h = answer-db svc meta h _ w (mark_read-IsAtomic env svc.msgs user _)

  found-IsQuiet :
      (stop : Bool) (chat : Text) (r : Result ChatMember × World) (h : Hub)
      → IsQuiet r.1 (typing_found env svc user meta stop chat r h)
  unfolding typing_found
  found-IsQuiet stop chat (ok m, w) h = λ n. absurd (n refl)
  found-IsQuiet stop chat (fail e, w) h =
      if-cases (IsQuiet w) (is_not_found e) _ _ (λ _. refl) (λ _. refl)

  pub typing-IsQuiet :
      (stop : Bool) (d : Option Text) (w : World) (h : Hub)
      → IsQuiet w (handle_typing env svc user meta stop d w h)
  unfolding handle_typing
  typing-IsQuiet stop none w h = λ _. refl
  typing-IsQuiet stop (some raw) w h = go (parse_id "invalid chat_id" (trim_space raw))
    where
      go : (r : Result Text) → IsQuiet w (typing_parsed env svc user meta stop r w h)
      go (ok c) = λ n.
          found-IsQuiet stop c (find_membership env c user w) h n
          ∙ (find_membership-ReadOnly env c user).same w
      go (fail e) = λ _. refl

  keep_typing-db :
      (stop : Bool) (chat : Text) (w : World)
      → (keep_typing env svc user meta stop chat w).db ≡ w.db
  keep_typing-db true chat w = (stop_typing-ReadOnly env svc.has_typing chat user).same w
  keep_typing-db false chat w = (start_typing-ReadOnly env svc.has_typing chat user).same w

  published-Reaches :
      (event : String) (chat : Text) (content : Option Json) (v w : World) (h : Hub)
      (m : ChatMember)
      → select_membership chat user w.db ≡ ok m
      → v.db ≡ w.db
      → let (_, v', h') = publish_to_chat env svc.pub_redis chat event content meta v h in
        Reaches env user w h ([], v', h')
  unfolding publish_to_chat
  published-Reaches event chat content v w h m e same = go svc.pub_redis
    where
      go :
          (p : Option (Text → Json → Result (Unit {0})))
          → let (_, v', h') = publish_to_chat env p chat event content meta v h in
            Reaches env user w h ([], v', h')
      go none = λ _. record {
        no_frame = refl;
        chat = chat;
        row = m;
        member = e;
        payload = marshal_envelope event content meta;
        at = v;
        tables = same;
        sent = refl;
      }
      go (some f) = λ n. absurd (n refl)

  found-Reaches :
      (stop : Bool) (chat : Text) (w : World) (h : Hub)
      → Reaches env user w h
          (typing_found env svc user meta stop chat (find_membership env chat user w) h)
  unfolding typing_found
  found-Reaches stop chat w h =
      go (find_membership env chat user w).0 (find_membership env chat user w).1
        (λ m e. (find_membership-finds env chat user w.db).at w m refl e)
        ((find_membership-ReadOnly env chat user).same w)
    where
      go :
          (r : Result ChatMember) (v : World)
          → ((m : ChatMember) → r ≡ ok m → select_membership chat user w.db ≡ ok m)
          → v.db ≡ w.db
          → Reaches env user w h (typing_found env svc user meta stop chat (r, v) h)
      go (ok m) v k same =
          published-Reaches _ chat _ (keep_typing env svc user meta stop chat v) w h m (k m refl)
            (keep_typing-db stop chat v ∙ same)
      go (fail e) v k same =
          if-cases (Reaches env user w h) (is_not_found e) _ _ (λ n. absurd (n refl))
            (λ n. absurd (n refl))

  pub typing-Reaches :
      (stop : Bool) (d : Option Text) (w : World) (h : Hub)
      → Reaches env user w h (handle_typing env svc user meta stop d w h)
  unfolding handle_typing
  typing-Reaches stop none w h = λ n. absurd (n refl)
  typing-Reaches stop (some raw) w h = go (parse_id "invalid chat_id" (trim_space raw))
    where
      go : (r : Result Text) → Reaches env user w h (typing_parsed env svc user meta stop r w h)
      go (ok c) = found-Reaches stop c w h
      go (fail e) = λ n. absurd (n refl)

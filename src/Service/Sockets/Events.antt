-- ===== src/Service/Sockets/Events.antt =====
-- ws_service.go, HandleEvent: what an event changes and whom it reaches.
use gomsg.Prelude.{
  String, Text, Bool, true, false, Option, none, some, [], ◌∷◌, ◌≡◌, ◌≢◌, refl, sym, ◌∙◌, ap, codes,
  text_eq,
}
use gomsg.Json.{Json}
use gomsg.Tables.Chats.{select_membership}
use gomsg.Store.{Env, World}
use gomsg.Hub.{Hub}
use gomsg.Service.Sockets.{
  WsService, Decoder, SendData, Inbound, Answer, handle_message_send, handle_message_read,
  handle_typing, note_activity, dispatch, handle_event,
}
use gomsg.Service.Sockets.Frames.{
  note_activity-db, IsQuiet, Reach, Reaches, if-cases, answer-hub, send-IsQuiet, read-IsQuiet,
  typing-IsQuiet, typing-Reaches,
}

module _ (env : Env) (svc : WsService) (dec : Decoder) (user : Text) where
  -- What holds of every branch of the switch holds of its answer.
  pub dispatch-cases :
      (P : Answer → Type 0) (i : Inbound) (w : World) (h : Hub)
      → ((f : Json) → P (f ∷ [], w, h))
      → ((d : Option SendData) → P (handle_message_send env svc user i.meta d w h))
      → ((d : Option Text) → P (handle_message_read env svc user i.meta d w h))
      → ((stop : Bool) (d : Option Text) → P (handle_typing env svc user i.meta stop d w h))
      → P (dispatch env svc dec user i w h)
  unfolding dispatch
  dispatch-cases P i w h frame send read typing = if-cases P (is "ping") _ _ (frame _) (
      if-cases P (is "message.send") _ _ (send _) (
        if-cases P (is "message.read") _ _ (read _) (
          if-cases P (is "typing.start") _ _ (typing false _)
            (if-cases P (is "typing.stop") _ _ (typing true _) (frame _)))))
    where
      is : String → Bool
      is name = text_eq i.event (codes name)

  dispatch-IsQuiet :
      (i : Inbound) (w : World) (h : Hub) → IsQuiet w (dispatch env svc dec user i w h)
  dispatch-IsQuiet i w h =
      dispatch-cases (IsQuiet w) i w h (λ f _. refl) (λ d. send-IsQuiet env svc user i.meta d w h)
        (λ d. read-IsQuiet env svc user i.meta d w h)
        (λ stop d. typing-IsQuiet env svc user i.meta stop d w h)

  dispatch-Reaches :
      (i : Inbound) (w : World) (h : Hub) → Reaches env user w h (dispatch env svc dec user i w h)
  unfolding handle_message_send handle_message_read
  dispatch-Reaches i w h =
      dispatch-cases (Reaches env user w h) i w h (λ f n. absurd (n refl)) go_send go_read
        (λ stop d. typing-Reaches env svc user i.meta stop d w h)
    where
      go_send :
          (d : Option SendData)
          → Reaches env user w h (handle_message_send env svc user i.meta d w h)
      go_send none = λ n. absurd (n refl)
      go_send (some d) = λ n. absurd (n (answer-hub svc i.meta h _))

      go_read :
          (d : Option Text) → Reaches env user w h (handle_message_read env svc user i.meta d w h)
      go_read none = λ n. absurd (n refl)
      go_read (some d) = λ n. absurd (n (answer-hub svc i.meta h _))

  -- A frame that is answered by a frame, be it an error or a pong, has changed no table: so a message that
  -- an error frame refuses has not been stored, nor announced.
  pub handle_event-IsQuiet :
      (payload : Text) (w : World) (h : Hub)
      → (handle_event env svc dec user payload w h).0 ≢ []
      → (handle_event env svc dec user payload w h).1.db ≡ w.db
  unfolding handle_event
  handle_event-IsQuiet payload w h =
      if-cases (IsQuiet w) (dec.is_envelope payload) _ _
        (λ n.
          dispatch-IsQuiet (dec.envelope payload) (note_activity env svc.presence user w) h n
          ∙ note_activity-db env svc.presence user w)
        (λ _. refl)

  -- A frame that changes what waits for the connections of the process is answered by none, and has
  -- sent one payload to the members of a chat of which the user is a member.
  pub handle_event-Reach :
      (payload : Text) (w : World) (h : Hub)
      → (handle_event env svc dec user payload w h).2 ≢ h
      → Reach env user w h (handle_event env svc dec user payload w h)
  unfolding handle_event
  handle_event-Reach payload w h =
      if-cases (Reaches env user w h) (dec.is_envelope payload) _ _
        (λ n.
          let v = note_activity env svc.presence user w in
          let r = dispatch-Reaches (dec.envelope payload) v h n in
          let same = note_activity-db env svc.presence user w in
          record {
            no_frame = r.no_frame;
            chat = r.chat;
            row = r.row;
            member = ap (select_membership r.chat user) (sym same) ∙ r.member;
            payload = r.payload;
            at = r.at;
            tables = r.tables ∙ same;
            sent = r.sent;
          })
        (λ n. absurd (n refl))

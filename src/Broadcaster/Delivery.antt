-- ===== src/Broadcaster/Delivery.antt =====
-- broadcaster.go, deliverPayload: who gets a payload, and how often.
use gomsg.Prelude.{
  ℕ, suc, Text, Bool, true, false, ◌&&◌, ◌||◌, Option, none, some, List, [], ◌∷◌, ◌≡◌, refl, sym,
  ap, subst, ◌∙◌, arith, ◌==◌, text_eq, text_eq_iff, any_row, update_rows, update_rows-update_rows,
  All, All-map, All-zip,
}
use gomsg.Json.{Json}
use gomsg.Errors.{Error}
use gomsg.Result.{Result, ok, fail}
use gomsg.Domain.{ChatMember}
use gomsg.Store.{Env, World, Db, query, attempt}
use gomsg.Hub.{Client, Hub, has_ref, set_of, try_send, send_to_user}
use gomsg.Hub.Sound.{HasDistinctRefs, owned, IsSound, All-has_ref}
use gomsg.Hub.Upkeep.{set_of_sound}
use gomsg.Hub.Sending.{
  reached, send_to_user-eq, send_to_user-IsSound, try_send-ref, update_rows-none,
}
use gomsg.Repository.Chats.{get_chat_members}
use gomsg.Tables.Chats.{select_members}
use gomsg.Tables.Chats.Members.{
  HasDistinctMembers, HasDistinctKeys, select_members-HasDistinctMembers,
}
use gomsg.Broadcaster.{send_to_members, deliver_payload, to_found}

-- Whether the channel is a connection of one of the members.
abbrev pub listens : List ChatMember → Hub → Client → Bool
listens ms h c = any_row (λ m. reached (ChatMember.user_id m) h c) ms

unowned-later :
    (r : ℕ) (u : Text) (cs : List Client)
    → All (λ x. (r == Client.ref x) ≡ false) cs
    → owned u cs r ≡ false
unfolding any_row
unowned-later r u [] a = refl
unowned-later r u (c ∷ cs) a = ground (arith, unowned-later r u cs a.1, a.0)

-- The owner of a channel is the user that the channel names.
owner :
    (u : Text) (cs : List Client)
    → HasDistinctRefs cs
    → All (λ c. owned u cs c.ref ≡ true → text_eq c.user_id u ≡ true) cs
unfolding any_row
owner u [] d = tt
owner u (c ∷ cs) d =
    ((λ o. ground (arith, unowned-later c.ref u cs d.0)), others cs d.0 (owner u cs d.1))
  where
    others :
        (xs : List Client)
        → All (λ x. (Client.ref c == Client.ref x) ≡ false) xs
        → All (λ x. owned u cs x.ref ≡ true → text_eq x.user_id u ≡ true) xs
        → All (λ x. owned u (c ∷ cs) x.ref ≡ true → text_eq x.user_id u ≡ true) xs
    others [] a b = tt
    others (x ∷ xs) a b = ((λ o. b.0 (ground (arith, a.0))), others xs a.1 b.1)

reached-owner :
    (u : Text) (h : Hub)
    → IsSound h
    → All (λ c. reached u h c ≡ true → text_eq (Client.user_id c) u ≡ true) h.channels
reached-owner u h s =
    All-map (λ c. owned u h.channels c.ref ≡ true → text_eq (Client.user_id c) u ≡ true)
      (λ c. reached u h c ≡ true → text_eq (Client.user_id c) u ≡ true)
      (λ c o e. o (
        All-has_ref (λ r. owned u h.channels r ≡ true) c.ref (set_of u h.clients)
          (set_of_sound h.channels u h.clients s.entries).1 e))
      h.channels (owner u h.channels s.refs)

never_both :
    (u v : Text) (h : Hub)
    → text_eq u v ≡ false
    → IsSound h
    → All (λ c. (reached u h c && reached v h c) ≡ false) h.channels
never_both u v h d s =
    All-zip (λ c. reached u h c ≡ true → text_eq (Client.user_id c) u ≡ true)
      (λ c. reached v h c ≡ true → text_eq (Client.user_id c) v ≡ true)
      (λ c. (reached u h c && reached v h c) ≡ false)
      (λ c a b. one (reached u h c) (reached v h c) c a b) h.channels (reached-owner u h s)
      (reached-owner v h s)
  where
    one :
        (x y : Bool) (c : Client)
        → (x ≡ true → text_eq (Client.user_id c) u ≡ true)
        → (y ≡ true → text_eq (Client.user_id c) v ≡ true)
        → (x && y) ≡ false
    one true true c a b = absurd (
        ground (
          arith,
          a refl,
          b refl,
          d,
          text_eq_iff c.user_id u,
          text_eq_iff c.user_id v,
          text_eq_iff u v,
        ))
    one true false c a b = refl
    one false y c a b = refl

-- A channel of one member is none of another's.
not_both :
    (u : Text) (ms : List ChatMember) (h : Hub)
    → any_row (λ x. text_eq u (ChatMember.user_id x)) ms ≡ false
    → IsSound h
    → All (λ c. (reached u h c && listens ms h c) ≡ false) h.channels
unfolding any_row
not_both u [] h d s =
    All-map (λ c. reached u h c ≡ true → text_eq (Client.user_id c) u ≡ true)
      (λ c. (reached u h c && false) ≡ false) (λ c _. ground arith) h.channels (reached-owner u h s)
not_both u (m ∷ ms) h d s =
    All-zip (λ c. (reached u h c && reached m.user_id h c) ≡ false)
      (λ c. (reached u h c && listens ms h c) ≡ false)
      (λ c. (reached u h c && listens (m ∷ ms) h c) ≡ false)
      (λ c a b. either (reached u h c) (reached m.user_id h c) (listens ms h c) a b) h.channels
      (never_both u m.user_id h (ground arith) s) (not_both u ms h (ground arith) s)
  where
    either : (x y z : Bool) → (x && y) ≡ false → (x && z) ≡ false → (x && (y || z)) ≡ false
    either x y z a b = ground arith

pub send_to_members-eq :
    (ms : List ChatMember) (p : Json) (h : Hub)
    → HasDistinctMembers ms
    → IsSound h
    → send_to_members ms p h
      ≡ record h { channels = update_rows (listens ms h) (try_send p) h.channels }
unfolding send_to_members any_row
send_to_members-eq [] p h d s =
    ap (λ cs. record h { channels = cs }) (sym (update_rows-none (try_send p) h.channels))
send_to_members-eq (m ∷ ms) p h d s =
    ap (send_to_members ms p) sent
    ∙ send_to_members-eq ms p
        (record h { channels = update_rows (reached m.user_id h) (try_send p) h.channels }) d.1
        (subst IsSound sent (send_to_user-IsSound m.user_id p h s))
    ∙ ap (λ cs. record h { channels = cs })
        (update_rows-update_rows (reached m.user_id h) (listens ms h) (try_send p)
          (λ c.
            ap (λ r. any_row (λ x. has_ref r (set_of (ChatMember.user_id x) h.clients)) ms)
              (try_send-ref p c))
          h.channels (not_both m.user_id ms h d.0 s))
  where
    sent :
        send_to_user m.user_id p h
        ≡ record h { channels = update_rows (reached m.user_id h) (try_send p) h.channels }
    sent = send_to_user-eq m.user_id p h s

-- What a delivery of `p` to the chat does, by its result: the hub is as before where the members could
-- not be read; else each connection of each member got `p` once, or not at all if its channel was full.
abbrev pub IsDelivery : Text → Json → Db → Hub → Result (Unit {0}) → Hub → Type 0
IsDelivery chat_id p d h (fail e) k = k ≡ h
IsDelivery chat_id p d h (ok _) k =
    (ms : List ChatMember) × (select_members chat_id d ≡ ok ms)
    × (k ≡ record h { channels = update_rows (listens ms h) (try_send p) h.channels })

-- A delivery to a chat, on a sound hub and a table of members with its primary key: if the members
-- cannot be read, no channel changes. Else exactly the registered connections of the members got the
-- payload, at the end of their channels and once, except those whose channel is full.
pub deliver_payload-IsDelivery :
    (env : Env) (chat_id : Text) (p : Json) (w : World) (h : Hub)
    → HasDistinctKeys w.db.members
    → IsSound h
    → IsDelivery chat_id p w.db h
        (deliver_payload env chat_id p w h).0
        (deliver_payload env chat_id p w h).2
unfolding deliver_payload get_chat_members query
deliver_payload-IsDelivery env chat_id p w h d s =
    go (env.fault w.tick) (select_members chat_id w.db) refl
  where
    w' : World
    w' = record w { tick = suc w.tick }

    go :
        (o : Option Error) (r : Result (List ChatMember))
        → select_members chat_id w.db ≡ r
        → IsDelivery chat_id p w.db h
            (to_found p h (attempt o w' (r, w'))).0
            (to_found p h (attempt o w' (r, w'))).2
    go (some e) r k = refl
    go none (fail e) k = refl
    go none (ok ms) k =
        (ms, k, send_to_members-eq ms p h (select_members-HasDistinctMembers chat_id w.db ms d k) s)

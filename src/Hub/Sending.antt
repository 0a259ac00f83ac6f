-- ===== src/Hub/Sending.antt =====
-- hub.go, SendToUser and newClient: what they do to the channels.
use gomsg.Prelude.{
  ℕ, suc, ◌≤◌, Text, Bool, true, false, ◌&&◌, Option, none, some, List, [], ◌∷◌, ◌≡◌, refl, sym, ap,
  subst, ◌∙◌, arith, ltb, ◌==◌, if◌then◌else◌, text_eq, any_row, any_row-update_rows, update_rows,
  update_rows-update_rows, length, length-append, All, All-map, All-update_rows, Bool-cases, inl,
  inr,
}
use gomsg.Json.{Json}
use gomsg.Hub.{
  Client, Hub, has_ref, set_of, new_client, try_send, send_each, send_to_user, popped, write_next,
  reply,
}
use gomsg.Hub.Sound.{HasDistinctRefs, IsSetOf, owned, Fits, IsSoundEntry, IsSound}
use gomsg.Hub.Upkeep.{set_of_sound}

pub try_send-ref : (p : Json) (c : Client) → Client.ref (try_send p c) ≡ c.ref
unfolding try_send
try_send-ref p c = ground arith

try_send-user : (p : Json) (c : Client) → Client.user_id (try_send p c) ≡ c.user_id
unfolding try_send
try_send-user p c = ground arith

try_send-Fits : (p : Json) (c : Client) → Fits c → Fits (try_send p c)
unfolding try_send
try_send-Fits p c h = ground (arith, length-append c.queue (p ∷ []))

-- Whether the channel is one of the user's registered connections.
abbrev pub reached : Text → Hub → Client → Bool
reached u h c = has_ref c.ref (set_of u h.clients)

not_in :
    (r : ℕ) (rs : List ℕ)
    → has_ref r rs ≡ false
    → (cs : List Client) → All (λ c. ((Client.ref c == r) && has_ref c.ref rs) ≡ false) cs
not_in r rs h [] = tt
not_in r rs h (c ∷ cs) = (
  elim (Bool-cases (Client.ref c == r)) [
    | inl e ↦ ground (arith, subst (λ x. has_ref x rs ≡ false) (same e) h)
    | inr e ↦ ground arith
  ],
  not_in r rs h cs,
)
  where
    same : (Client.ref c == r) ≡ true → r ≡ c.ref
    same e = ground arith

pub update_rows-none : (f : Client → Client) (cs : List Client) → update_rows (λ _. false) f cs ≡ cs
unfolding update_rows
update_rows-none f [] = refl
update_rows-none f (c ∷ cs) = ap (λ xs. c ∷ xs) (update_rows-none f cs)

-- The loop over the copied set is one update of the channels.
send_each-eq :
    (rs : List ℕ) (p : Json) (cs : List Client)
    → IsSetOf rs
    → send_each rs p cs ≡ update_rows (λ c. has_ref (Client.ref c) rs) (try_send p) cs
unfolding send_each any_row
send_each-eq [] p cs d = sym (update_rows-none (try_send p) cs)
send_each-eq (r ∷ rs) p cs d =
    send_each-eq rs p _ d.1
    ∙ update_rows-update_rows (λ c. Client.ref c == r) (λ c. has_ref (Client.ref c) rs) (try_send p)
        (λ c. ap (λ x. has_ref x rs) (try_send-ref p c)) cs (not_in r rs d.0 cs)

pub send_to_user-eq :
    (u : Text) (p : Json) (h : Hub)
    → IsSound h
    → send_to_user u p h ≡ record h { channels = update_rows (reached u h) (try_send p) h.channels }
unfolding send_to_user
send_to_user-eq u p h s =
    ap (λ cs. record h { channels = cs })
      (send_each-eq (set_of u h.clients) p h.channels
        (set_of_sound h.channels u h.clients s.entries).0)

-- A change of the queues alone keeps the hub sound.
module _ (q : Client → Bool) (f : Client → Client)
    (same_ref : (c : Client) → Client.ref (f c) ≡ c.ref)
    (same_user : (c : Client) → Client.user_id (f c) ≡ c.user_id)
    (still_fit : (c : Client) → Fits c → Fits (f c)) where
  owned-changed :
      (u : Text) (r : ℕ) (cs : List Client) → owned u (update_rows q f cs) r ≡ owned u cs r
  owned-changed u r cs =
      any_row-update_rows (λ c. (Client.ref c == r) && text_eq (Client.user_id c) u) q f
        (λ c. rw (same_ref c, same_user c) refl) cs

  changed-HasDistinctRefs :
      (cs : List Client) → HasDistinctRefs cs → HasDistinctRefs (update_rows q f cs)
  unfolding update_rows
  changed-HasDistinctRefs [] d = tt
  changed-HasDistinctRefs (c ∷ cs) d = (
    subst (λ r. All (λ x. (r == Client.ref x) ≡ false) (update_rows q f cs)) (kept (q c))
        (All-update_rows q f (λ x e. ap (λ r. Client.ref c == r) (same_ref x) ∙ e) cs d.0),
    changed-HasDistinctRefs cs d.1,
  )
    where
      kept : (b : Bool) → c.ref ≡ Client.ref (if b then f c else c)
      kept true = sym (same_ref c)
      kept false = refl

  pub changed-IsSound :
      (h : Hub) → IsSound h → IsSound (record h { channels = update_rows q f h.channels })
  changed-IsSound h s = record {
    users = s.users;
    entries =
        All-map (IsSoundEntry h.channels) (IsSoundEntry (update_rows q f h.channels))
          (λ e k. record {
            filled = k.filled;
            distinct = k.distinct;
            owners =
                All-map (λ r. owned e.0 h.channels r ≡ true)
                  (λ r. owned e.0 (update_rows q f h.channels) r ≡ true)
                  (λ r o. owned-changed e.0 r h.channels ∙ o) e.1 k.owners;
          })
          h.clients s.entries;
    refs = changed-HasDistinctRefs h.channels s.refs;
    fresh =
        All-update_rows q f (λ c e. ap (λ r. ltb r h.next_ref) (same_ref c) ∙ e) h.channels s.fresh;
    bounded = All-update_rows q f still_fit h.channels s.bounded;
  }

pub send_to_user-IsSound :
    (u : Text) (p : Json) (h : Hub) → IsSound h → IsSound (send_to_user u p h)
send_to_user-IsSound u p h s = subst IsSound (sym (send_to_user-eq u p h s)) (
    changed-IsSound (reached u h) (try_send p) (try_send-ref p) (try_send-user p) (try_send-Fits p)
      h s)

owned-cons :
    (v : Text) (r : ℕ) (c : Client) (cs : List Client)
    → owned v cs r ≡ true
    → owned v (c ∷ cs) r ≡ true
unfolding any_row
owned-cons v r c cs o = ground arith

pub new_client-IsSound : (u : Text) (h : Hub) → IsSound h → IsSound (new_client u h).1
unfolding new_client
new_client-IsSound u h s = record {
  users = s.users;
  entries =
      All-map (IsSoundEntry h.channels) (IsSoundEntry (new_client u h).1.channels)
        (λ e k. record {
          filled = k.filled;
          distinct = k.distinct;
          owners =
              All-map (λ r. owned e.0 h.channels r ≡ true)
                (λ r. owned e.0 (new_client u h).1.channels r ≡ true)
                (λ r o. owned-cons e.0 r _ h.channels o) e.1 k.owners;
        })
        h.clients s.entries;
  refs = (
    All-map (λ c. ltb (Client.ref c) h.next_ref ≡ true) (λ c. (h.next_ref == Client.ref c) ≡ false)
        (λ c e. ground arith) h.channels s.fresh,
    s.refs,
  );
  fresh = (
    ground arith,
    All-map (λ c. ltb (Client.ref c) h.next_ref ≡ true)
        (λ c. ltb (Client.ref c) (suc h.next_ref) ≡ true) (λ c e. ground arith) h.channels s.fresh,
  );
  bounded = (omega arith, s.bounded);
}

pop-Fits : (q : List Json) → length q ≤ 256 → length (popped q) ≤ 256
pop-Fits [] h = h
pop-Fits (p ∷ q) h = omega arith

pub write_next-IsSound : (r : ℕ) (h : Hub) → IsSound h → IsSound (write_next r h)
unfolding write_next
write_next-IsSound r h s =
    changed-IsSound (λ c. Client.ref c == r) (λ c. record c { queue = popped c.queue }) (λ c. refl)
      (λ c. refl) (λ c k. pop-Fits c.queue k) h s

pub reply-IsSound :
    (r : ℕ) (outs : List (Option Json)) (h : Hub) → IsSound h → IsSound (reply r outs h)
unfolding reply
reply-IsSound r [] h s = s
reply-IsSound r (none ∷ outs) h s = reply-IsSound r outs h s
reply-IsSound r (some p ∷ outs) h s = reply-IsSound r outs _ (
    changed-IsSound (λ c. Client.ref c == r) (try_send p) (try_send-ref p) (try_send-user p)
      (try_send-Fits p) h s)

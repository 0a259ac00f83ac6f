-- ===== src/Hub/Reachable.antt =====
-- hub.go: what every reachable hub keeps.
use gomsg.Prelude.{
  ℕ, pos, Text, Bool, true, false, Option, none, some, List, [], ◌∷◌, ◌≡◌, refl, sym, ap, subst,
  ◌∙◌, arith, ltb, ◌==◌, if◌then◌else◌, text_eq_refl, any_row, All, Bool-cases, inl, inr,
}
use gomsg.Json.{Json}
use gomsg.Hub.{
  Client, Hub, new_hub, dec, has_ref, lookup_set, set_or_empty, set_of, new_client, register,
  unregister, without_ref, send_to_user, reply, write_next,
}
use gomsg.Hub.Sound.{IsSetOf, owned, IsSound}
use gomsg.Hub.Upkeep.{set_of_sound, register-IsSound, unregister-IsSound}
use gomsg.Hub.Sending.{new_client-IsSound, send_to_user-IsSound, reply-IsSound, write_next-IsSound}
use gomsg.Hub.Gauge.{
  Step, connect, disconnect, send, answer, write, Reach, start, later, connections,
  connections-put_set, connections-without_ref,
}

-- The gauge, where it is kept, counts the connections.
abbrev pub IsCounted : Hub → Type 0
IsCounted h = h.met ≡ true → h.ws_active ≡ pos (connections h.clients)

register-IsCounted :
    (r : ℕ) (u : Text) (h : Hub)
    → has_ref r (set_of u h.clients) ≡ false
    → IsCounted h
    → IsCounted (register r u h)
unfolding register
register-IsCounted r u h new c met =
    rw (met, c met, new)
      (ap pos (omega (arith, connections-put_set u (r ∷ set_of u h.clients) h.clients)))

unregister-IsCounted :
    (r : ℕ) (u : Text) (h : Hub)
    → IsSound h
    → has_ref r (set_of u h.clients) ≡ true
    → IsCounted h
    → IsCounted (unregister r u h)
unfolding unregister
unregister-IsCounted r u h s here c = go (lookup_set u h.clients) refl
  where
    go :
        (o : Option (List ℕ))
        → lookup_set u h.clients ≡ o
        → IsCounted (elim o [
          | none ↦ h
          | some t ↦ record h {
            clients = without_ref r u t h.clients;
            ws_active = if h.met then dec h.ws_active else h.ws_active;
          }
        ])
    go none e met = c met
    go (some t) e met =
        rw (met, c met)
          (ap dec (
            ap pos (
              sym (
                connections-without_ref r u t h.clients e
                  (subst (λ o. IsSetOf (set_or_empty o)) e
                    (set_of_sound h.channels u h.clients s.entries).0)
                  s.users (subst (λ o. has_ref r (set_or_empty o) ≡ true) e here)))))

unowned :
    (u : Text) (n : ℕ) (cs : List Client)
    → All (λ c. ltb (Client.ref c) n ≡ true) cs
    → owned u cs n ≡ false
unfolding any_row
unowned u n [] a = refl
unowned u n (c ∷ cs) a = ground (arith, unowned u n cs a.1, a.0)

unowned-absent :
    (u : Text) (n : ℕ) (cs : List Client) (s : List ℕ)
    → owned u cs n ≡ false
    → All (λ r. owned u cs r ≡ true) s
    → has_ref n s ≡ false
unfolding any_row
unowned-absent u n cs [] o a = refl
unowned-absent u n cs (r ∷ s) o a = elim (Bool-cases (n == r)) [
  | inl k ↦ absurd (cc (sym o ∙ subst (λ x. owned u cs x ≡ true) (sym (same k)) a.0))
  | inr k ↦ ground (arith, unowned-absent u n cs s o a.1)
]
  where
    same : (n == r) ≡ true → n ≡ r
    same k = ground arith

owned-new : (u : Text) (h : Hub) → owned u (new_client u h).1.channels h.next_ref ≡ true
unfolding new_client any_row
owned-new u h = ground (arith, text_eq_refl u)

-- The state of a hub that a run reaches.
pub record IsKept (h : Hub) : Type 0 where
  pub sound : IsSound h
  pub counted : IsCounted h

connect-IsKept :
    (u : Text) (h : Hub) → IsKept h → IsKept (register (new_client u h).0 u (new_client u h).1)
unfolding new_client
connect-IsKept u h k = record {
  sound =
      register-IsSound h.next_ref u (new_client u h).1 (owned-new u h)
        (new_client-IsSound u h k.sound);
  counted =
      register-IsCounted h.next_ref u (new_client u h).1
        (unowned-absent u h.next_ref h.channels (set_of u h.clients)
          (unowned u h.next_ref h.channels k.sound.fresh)
          (set_of_sound h.channels u h.clients k.sound.entries).1)
        k.counted;
}

reply-IsCounted :
    (r : ℕ) (outs : List (Option Json)) (h : Hub) → IsCounted h → IsCounted (reply r outs h)
unfolding reply
reply-IsCounted r [] h c = c
reply-IsCounted r (none ∷ outs) h c = reply-IsCounted r outs h c
reply-IsCounted r (some p ∷ outs) h c = reply-IsCounted r outs _ c

Step-IsKept : (h k : Hub) → Step h k → IsKept h → IsKept k
unfolding send_to_user write_next
Step-IsKept h _ (connect u _) i = connect-IsKept u h i
Step-IsKept h _ (disconnect r u _ here) i = record {
  sound = unregister-IsSound r u h i.sound;
  counted = unregister-IsCounted r u h i.sound here i.counted;
}
Step-IsKept h _ (send u p _) i = record {
  sound = send_to_user-IsSound u p h i.sound;
  counted = i.counted;
}
Step-IsKept h _ (answer r outs _) i = record {
  sound = reply-IsSound r outs h i.sound;
  counted = reply-IsCounted r outs h i.counted;
}
Step-IsKept h _ (write r _) i = record {
  sound = write_next-IsSound r h i.sound;
  counted = i.counted;
}

-- Whatever connections come, are written to, and go: each set of the hub is non-empty, has no client
-- twice and only clients of its user, each user has one entry, no channel holds over 256 payloads, and
-- the gauge, where it is kept, is the number of registered connections.
pub reach-IsKept : (met : Bool) (h : Hub) → Reach met h → IsKept h
unfolding new_hub
reach-IsKept met _ start = record {
  sound = record { users = tt; entries = tt; refs = tt; fresh = tt; bounded = tt };
  counted = λ _. refl;
}
reach-IsKept met k (later {h} r s) = Step-IsKept h k s (reach-IsKept met h r)

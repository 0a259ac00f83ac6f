-- ===== src/Admission/Tickets.antt =====
-- handler.go: a connection is worth a ticket.
use gomsg.Prelude.{
  ◌⊎◌, inl, inr, Any, any_row, text_eq, text_eq_iff, Bool-cases, List, [], ◌∷◌, ℕ, Text, Bool, true,
  false, not, Option, none, some, ◌≡◌, ◌≢◌, refl, sym, ◌∙◌, ap, subst, arith, trim_space,
  trim_space-trim_space, is_empty, if◌then◌else◌,
}
use gomsg.Result.{Result, ok, fail}
use gomsg.Store.{Env, World}
use gomsg.Hub.{Hub, new_client, register}
use gomsg.Redis.Tickets.{TicketStore, ticket_key, consume}
use gomsg.Redis.Tickets.OneUse.{
  IsAbsent, Later, Later-IsAbsent, consume-IsAbsent, absent-fails, seen_online-IsAbsent,
}
use gomsg.Admission.{
  Handler, Outcome, refused, connected, origin_ok, connect, admit, take_ticket, serve,
  note_connected,
}

-- No origin at all, or one that the configuration lists
abbrev pub IsAllowed : Handler → Text → Type 0
IsAllowed h origin = (origin ≡ []) ⊎ Any (λ a. origin ≡ a) h.allowed

text_eq-Any :
    (origin : Text) (xs : List Text) → any_row (text_eq origin) xs ≡ true → Any (λ a. origin ≡ a) xs
unfolding any_row
text_eq-Any origin [] e = absurd (cc)
text_eq-Any origin (x ∷ xs) e = elim (Bool-cases (text_eq origin x)) [
  | inl k ↦ inl ((text_eq_iff origin x).0 k)
  | inr k ↦ inr (text_eq-Any origin xs (ground (arith, e, k)))
]

origin_ok-IsAllowed : (h : Handler) (origin : Text) → origin_ok h origin ≡ true → IsAllowed h origin
unfolding origin_ok
origin_ok-IsAllowed h [] e = inl refl
origin_ok-IsAllowed h (c ∷ origin) e = inr (text_eq-Any (c ∷ origin) h.allowed (ground (arith, e)))

-- What has opened the connection `ref` of the user `uid`.
pub record Admitted (env : Env) (h : Handler) (origin ticket : Text) (w : World) (hub : Hub)
    (uid : Text) (ref : ℕ) (w' : World) (hub' : Hub) : Type 0 where
  pub origin_fits : origin_ok h (trim_space origin) ≡ true
  pub from_allowed : IsAllowed h (trim_space origin)
  pub store : TicketStore
  pub has_store : h.tickets ≡ some store
  pub taken : (consume env store (trim_space ticket) w).0 ≡ ok uid
  pub gone : IsAbsent (ticket_key (trim_space ticket)) w'.redis
  pub registered : (ref ≡ (new_client uid hub).0) × (hub' ≡ register ref uid (new_client uid hub).1)

module _ (env : Env) (h : Handler) where
  admit-ok :
      (up : Bool) (r : Result Text × World) (hub : Hub) (uid : Text) (ref : ℕ)
      → (admit env h up r hub).0 ≡ connected uid ref
      → (r.0 ≡ ok uid) × (admit env h up r hub ≡ connect env h uid r.1 hub)
  unfolding admit connect
  admit-ok up (ok u, w) hub uid ref e = ground arith
  admit-ok up (fail x, w) hub uid ref e = absurd (cc)

  connect-hub :
      (uid u : Text) (w : World) (hub : Hub) (ref : ℕ)
      → (connect env h u w hub).0 ≡ connected uid ref
      → (ref ≡ (new_client u hub).0)
        × ((connect env h u w hub).2 ≡ register ref u (new_client u hub).1)
  unfolding connect
  connect-hub uid u w hub ref e = ground arith

  connect-IsAbsent :
      (uid ticket : Text) (w : World) (hub : Hub)
      → IsAbsent (ticket_key ticket) w.redis
      → IsAbsent (ticket_key ticket) (connect env h uid w hub).1.redis
  unfolding connect note_connected
  connect-IsAbsent uid ticket w hub a = go h.presence refl
    where
      go :
          (p : Option Bool)
          → h.presence ≡ p
          → IsAbsent (ticket_key ticket) (note_connected env p uid w).redis
      go none e = a
      go (some on) e = seen_online-IsAbsent env on ticket uid w a

  take-Admitted :
      (store : TicketStore) (up : Bool) (origin ticket : Text) (w : World) (hub : Hub) (uid : Text)
      (ref : ℕ)
      → origin_ok h (trim_space origin) ≡ true
      → h.tickets ≡ some store
      → (take_ticket env h store up (trim_space ticket) w hub).0 ≡ connected uid ref
      → Admitted env h origin ticket w hub uid ref
          (take_ticket env h store up (trim_space ticket) w hub).1
          (take_ticket env h store up (trim_space ticket) w hub).2
  unfolding take_ticket
  take-Admitted store up origin ticket w hub uid ref o s = go (is_empty (trim_space ticket))
    where
      go :
          (b : Bool)
          → (if b
              then (refused 401, w, hub)
              else admit env h up (consume env store (trim_space ticket) w) hub).0
            ≡ connected uid ref
          → Admitted env h origin ticket w hub uid ref
              (if b
                then (refused 401, w, hub)
                else admit env h up (consume env store (trim_space ticket) w) hub).1
              (if b
                then (refused 401, w, hub)
                else admit env h up (consume env store (trim_space ticket) w) hub).2
      go true e = absurd (cc)
      go false e =
          let r = consume env store (trim_space ticket) w in
          let (taken, opened) = admit-ok up r hub uid ref e in
          let c = connect-hub uid uid r.1 hub ref (sym (ap (λ x. x.0) opened) ∙ e) in
          record {
            origin_fits = o;
            from_allowed = origin_ok-IsAllowed h (trim_space origin) o;
            store = store;
            has_store = s;
            taken = taken;
            gone =
                subst
                  (λ (x : Outcome × World × Hub).
                    IsAbsent (ticket_key (trim_space ticket)) x.1.redis)
                  (sym opened)
                  (connect-IsAbsent uid (trim_space ticket) r.1 hub (
                    subst (λ t. IsAbsent (ticket_key t) r.1.redis) (trim_space-trim_space ticket)
                      (consume-IsAbsent env store (trim_space ticket) uid w taken)));
            registered = (c.0, ap (λ x. x.2) opened ∙ c.1);
          }

  -- A request that ends in a connection has an allowed origin and a ticket that the store held for the
  -- user, and that is gone afterwards; the hub has one more client, registered for that user.
  pub serve-Admitted :
      (up : Bool) (origin ticket : Text) (w : World) (hub : Hub) (uid : Text) (ref : ℕ)
      → (serve env h up origin ticket w hub).0 ≡ connected uid ref
      → Admitted env h origin ticket w hub uid ref
          (serve env h up origin ticket w hub).1
          (serve env h up origin ticket w hub).2
  unfolding serve
  serve-Admitted up origin ticket w hub uid ref =
      go (origin_ok h (trim_space origin)) h.tickets refl refl
    where
      out : Bool → Option TicketStore → Outcome × World × Hub
      out b t = if not b then (refused 403, w, hub) else elim t [
        | none ↦ (refused 503, w, hub)
        | some store ↦ take_ticket env h store up (trim_space ticket) w hub
      ]

      go :
          (b : Bool) (t : Option TicketStore)
          → origin_ok h (trim_space origin) ≡ b
          → h.tickets ≡ t
          → (out b t).0 ≡ connected uid ref
          → Admitted env h origin ticket w hub uid ref (out b t).1 (out b t).2
      go false t o s e = absurd (cc)
      go true none o s e = absurd (cc)
      go true (some store) o s e = take-Admitted store up origin ticket w hub uid ref o s e

-- A ticket that has opened a connection opens no other, from whatever origin, whatever tickets are
-- issued and consumed and whoever connects and disconnects in between, as long as no issue answers
-- with this ticket again.
pub serve-once :
    (env env' : Env) (h : Handler) (store : TicketStore) (up up' : Bool)
    (origin origin' ticket ticket' uid uid' : Text) (ref ref' : ℕ) (w v : World) (hub hub' : Hub)
    → h.tickets ≡ some store
    → (serve env h up origin ticket w hub).0 ≡ connected uid ref
    → Later store (trim_space ticket) (serve env h up origin ticket w hub).1.redis v.redis
    → trim_space ticket' ≡ trim_space ticket
    → (serve env' h up' origin' ticket' v hub').0 ≢ connected uid' ref'
serve-once env env' h store up up' origin origin' ticket ticket' uid uid' ref ref' w v hub hub' s e
      l t e' =
    let a = serve-Admitted env h up origin ticket w hub uid ref e in
    let b = serve-Admitted env' h up' origin' ticket' v hub' uid' ref' e' in
    absent-fails env' b.store (trim_space ticket') uid' v
      (subst (λ k. IsAbsent (ticket_key k) v.redis) (sym (trim_space-trim_space ticket' ∙ t))
        (Later-IsAbsent store (trim_space ticket) _ v.redis a.gone l))
      b.taken

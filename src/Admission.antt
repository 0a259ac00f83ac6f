-- ===== src/Admission.antt =====
-- backend/internal/transport/ws/handler.go: who may open a WebSocket. The upgrade itself is a parameter.
pub mod Tickets
pub mod Pump
pub mod Runs
use gomsg.Prelude.{
  ℕ, Text, Bool, true, false, not, ◌||◌, Option, none, some, List, [], ◌∷◌, if◌then◌else◌, text_eq,
  is_empty, is_nil, any_row, trim_space,
}
use gomsg.Errors.{Error}
use gomsg.Result.{Result, ok, fail}
use gomsg.Store.{Env, World}
use gomsg.Hub.{Hub, new_client, register}
use gomsg.Redis.Tickets.{TicketStore, consume}
use gomsg.Redis.Presence.{seen_online}

-- Handler: `tickets` and `presence` where they are there; `allowed` as NewHandler fills it
pub record Handler : Type 0 where
  pub tickets : Option TicketStore
  pub allowed : List Text
  pub presence : Option Bool

-- The loop of NewHandler over the origins
unfoldable pub trimmed_origins : List Text → List Text
trimmed_origins [] = []
trimmed_origins (o ∷ os) =
    let rest = trimmed_origins os in let t = trim_space o in if is_empty t then rest else t ∷ rest

-- NewHandler
unfoldable pub new_handler : Option TicketStore → List Text → Option Bool → Handler
unfolding trimmed_origins
new_handler tickets origins presence = record {
  tickets = tickets;
  allowed = trimmed_origins origins;
  presence = presence;
}

-- originOK
unfoldable pub origin_ok : Handler → Text → Bool
origin_ok h origin =
    if is_empty origin
    then true
    else if is_nil h.allowed
    then false
    else any_row (text_eq origin) h.allowed

-- How a request ends: an HTTP status, a failed upgrade, or the connection of a user
pub data Outcome : Type 0 where
  refused : ℕ → Outcome
  upgrade_failed : Outcome
  connected : Text → ℕ → Outcome

-- h.presence.Connected
unfoldable pub note_connected : Env → Option Bool → Text → World → World
note_connected env none uid w = w
note_connected env (some on) uid w = (seen_online env on uid w).1

-- ServeHTTP behind the upgrade, up to the pumps
unfoldable pub connect : Env → Handler → Text → World → Hub → Outcome × World × Hub
unfolding note_connected
connect env h uid w hub =
    let (r, hub') = new_client uid hub in
    (connected uid r, note_connected env h.presence uid w, register r uid hub')

-- ServeHTTP behind Consume
unfoldable pub admit : Env → Handler → Bool → Result Text × World → Hub → Outcome × World × Hub
unfolding connect
admit env h upgrades (fail e, w) hub = (refused 401, w, hub)
admit env h upgrades (ok uid, w) hub =
    if is_empty uid
    then (refused 401, w, hub)
    else if upgrades
    then connect env h uid w hub
    else (upgrade_failed, w, hub)

-- ServeHTTP behind the origin and the ticket store
unfoldable pub take_ticket :
    Env → Handler → TicketStore → Bool → Text → World → Hub → Outcome × World × Hub
unfolding admit
take_ticket env h store upgrades ticket w hub =
    if is_empty ticket
    then (refused 401, w, hub)
    else admit env h upgrades (consume env store ticket w) hub

-- ServeHTTP, for the header Origin and the query parameter ticket; `upgrades` is whether the upgrade
-- succeeds
unfoldable pub serve : Env → Handler → Bool → Text → Text → World → Hub → Outcome × World × Hub
unfolding take_ticket
serve env h upgrades origin ticket w hub =
    if not (origin_ok h (trim_space origin)) then (refused 403, w, hub) else elim h.tickets [
      | none ↦ (refused 503, w, hub)
      | some store ↦ take_ticket env h store upgrades (trim_space ticket) w hub
    ]

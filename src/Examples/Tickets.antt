-- ===== src/Examples/Tickets.antt =====
-- Tickets and the connections they open.
use gomsg.Prelude.{
  arith, ◌<◌, ◌+◌, ℕ, ℤ, pos, negsuc, suc, Text, true, false, none, some, List, [], ◌∷◌, ◌++◌, ◌≡◌,
  ◌≢◌, refl, codes, trim_space,
}
use gomsg.Result.{ok}
use gomsg.Store.{World}
use gomsg.Hub.{Hub, new_hub, has_ref, set_of}
use gomsg.Redis.Tickets.{TicketStore, issue, consume}
use gomsg.Redis.Tickets.OneUse.{same, consume-issue}
use gomsg.Admission.{Handler, Outcome, connected, new_handler, serve}
use gomsg.Admission.Tickets.{Admitted, serve-Admitted, serve-once}
use gomsg.Hub.Gauge.{Reach}
use gomsg.Admission.Pump.{read_pump, read_frames}
use gomsg.Admission.Runs.{read_pump-Reach}
use gomsg.Examples.Frames.{decoder, sockets}
use gomsg.Examples.{alice, calm, start}

abbrev store : TicketStore
store = record { has_client = true; random = λ _. ok (codes "0badcafe") }

abbrev ticket : Text
ticket = codes "0badcafe"

abbrev issued : World
issued = (issue calm store alice (pos 600) start).1

issues : (issue calm store alice (pos 600) start).0 ≡ ok ticket
unfolding issue gomsg.Store.◌>>=◌ gomsg.Store.ensure gomsg.Store.draw gomsg.Store.redis_do
    gomsg.Redis.set_nx gomsg.Prelude.any_row gomsg.Store.pure
issues = refl

ticket_there : ticket ≢ []
ticket_there e = absurd (cc)

alice_there : alice ≢ []
alice_there e = absurd (cc)

trimmed_ticket : trim_space (codes " 0badcafe") ≡ ticket
unfolding trim_space
trimmed_ticket = refl

trimmed_alice : trim_space alice ≡ alice
unfolding trim_space
trimmed_alice = refl

ticks : issued.tick ≡ 2
unfolding issue gomsg.Store.◌>>=◌ gomsg.Store.ensure gomsg.Store.draw gomsg.Store.redis_do
    gomsg.Redis.set_nx gomsg.Prelude.any_row gomsg.Store.pure
ticks = refl

in_time : issued.tick < suc start.tick + 600
in_time = omega (arith, ticks)

consume-issue_example : (consume calm store (codes " 0badcafe") issued).0 ≡ ok alice
unfolding gomsg.Redis.Tickets.ttl_or_default
consume-issue_example =
    consume-issue calm calm store alice ticket (codes " 0badcafe") (pos 600) start issued issues
      refl refl in_time trimmed_ticket ticket_there trimmed_alice alice_there

abbrev handler : Handler
handler = new_handler (some store) (codes "https://go.io " ∷ []) (some true)

abbrev origin : Text
origin = codes "https://go.io"

abbrev quiet : Hub
quiet = new_hub true

admits : (serve calm handler true origin ticket issued quiet).0 ≡ connected alice 0
unfolding serve gomsg.Admission.origin_ok trim_space new_handler gomsg.Prelude.any_row
    gomsg.Prelude.text_eq consume gomsg.Store.◌>>=◌ gomsg.Store.ensure gomsg.Store.redis_do
    gomsg.Redis.get_del gomsg.Prelude.find_row issue gomsg.Store.draw gomsg.Redis.set_nx
    gomsg.Store.pure gomsg.Hub.new_client gomsg.Admission.admit gomsg.Admission.connect
    gomsg.Admission.note_connected gomsg.Admission.take_ticket gomsg.Admission.trimmed_origins
    gomsg.Hub.lookup_set gomsg.Hub.put_set gomsg.Hub.register gomsg.Prelude.is_space
    gomsg.Prelude.trim_left gomsg.Prelude.trim_right gomsg.Prelude.delete_rows
    gomsg.Redis.Presence.seen_online gomsg.Redis.Presence.set_online gomsg.Redis.Tickets.ticket_user
    gomsg.Redis.Tickets.ttl_or_default gomsg.Redis.set gomsg.Store.caught gomsg.Store.raise new_hub
admits = refl

serve-Admitted_example :
    Admitted calm handler origin ticket issued quiet alice 0
      (serve calm handler true origin ticket issued quiet).1
      (serve calm handler true origin ticket issued quiet).2
serve-Admitted_example = serve-Admitted calm handler true origin ticket issued quiet alice 0 admits

abbrev admitted : World
admitted = (serve calm handler true origin ticket issued quiet).1

one_store : handler.tickets ≡ some store
unfolding new_handler
one_store = refl

serve-once_example : (serve calm handler true origin ticket admitted quiet).0 ≢ connected alice 0
serve-once_example =
    serve-once calm calm handler store true true origin origin ticket ticket alice alice 0 0 issued
      admitted quiet quiet one_store admits same refl

abbrev frames : List Text
frames = codes "ping" ∷ codes "?" ∷ []

abbrev accepted : Hub
accepted = (serve calm handler true origin ticket issued quiet).2

abbrev while_open : Hub
while_open = (read_frames calm sockets decoder 0 alice frames admitted accepted).1

abbrev after_end : Hub
after_end = (read_pump calm sockets decoder handler.presence 0 alice frames admitted accepted).1

-- Alice pings, and sends what is no event.
read_pump-Reach_example :
    (Reach true accepted × (has_ref 0 (set_of alice accepted.clients) ≡ true))
    × (Reach true while_open × (has_ref 0 (set_of alice while_open.clients) ≡ true))
    × (Reach true after_end × (has_ref 0 (set_of alice after_end.clients) ≡ false))
read_pump-Reach_example =
    read_pump-Reach calm calm sockets decoder handler true origin ticket issued admitted quiet alice
      0 frames true admits Reach.start

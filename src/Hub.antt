-- ===== src/Hub.antt =====
-- backend/internal/transport/ws/hub.go and client.go: the open WebSocket connections of a process,
-- and the payloads that wait in their channels. A *Client is a number, `ref`, in a store of channels.
pub mod Sound
pub mod Upkeep
pub mod Sending
pub mod Gauge
pub mod Reachable
use gomsg.Prelude.{
  ℕ, zero, suc, ℤ, pos, negsuc, ◌+◌, Text, Bool, true, false, Option, none, some, List, [], ◌∷◌,
  ◌++◌, ltb, ◌==◌, if◌then◌else◌, text_eq, any_row, update_rows, delete_rows, length,
}
use gomsg.Json.{Json}

-- `queue` is what the channel `send` holds, oldest first; `connected`, that the socket is not closed.
pub record Client : Type 0 where
  pub ref : ℕ
  pub user_id : Text
  pub queue : List Json
  pub connected : Bool

abbrev pub send_buffer : ℕ
send_buffer = 256

-- An entry of the map from users to sets of clients.
abbrev pub Entry : Type 0
Entry = Text × List ℕ

pub record Hub : Type 0 where
  pub clients : List Entry
  pub channels : List Client
  pub next_ref : ℕ
  pub met : Bool
  pub ws_active : ℤ

-- NewHub
unfoldable pub new_hub : Bool → Hub
new_hub met = record { clients = []; channels = []; next_ref = 0; met = met; ws_active = pos 0 }

abbrev pub inc : ℤ → ℤ
inc (pos n) = pos (suc n)
inc (negsuc zero) = pos 0
inc (negsuc (suc n)) = negsuc n

abbrev pub dec : ℤ → ℤ
dec (pos zero) = negsuc 0
dec (pos (suc n)) = pos n
dec (negsuc n) = negsuc (suc n)

abbrev pub has_ref : ℕ → List ℕ → Bool
has_ref r = any_row (λ s. r == s)

-- h.clients[user]
unfoldable pub lookup_set : Text → List Entry → Option (List ℕ)
lookup_set u [] = none
lookup_set u (e ∷ es) = if text_eq e.0 u then some e.1 else lookup_set u es

abbrev pub set_or_empty : Option (List ℕ) → List ℕ
set_or_empty none = []
set_or_empty (some s) = s

-- A missing key of a Go map reads as the nil set.
abbrev pub set_of : Text → List Entry → List ℕ
set_of u es = set_or_empty (lookup_set u es)

-- h.clients[user] = set
unfoldable pub put_set : Text → List ℕ → List Entry → List Entry
put_set u s [] = (u, s) ∷ []
put_set u s (e ∷ es) = if text_eq e.0 u then (e.0, s) ∷ es else e ∷ put_set u s es

-- delete(h.clients, user)
abbrev pub delete_set : Text → List Entry → List Entry
delete_set u = delete_rows (λ e. text_eq e.0 u)

-- set[c] = struct{}{}
abbrev pub add_ref : ℕ → List ℕ → List ℕ
add_ref r s = if has_ref r s then s else r ∷ s

-- newClient, with a channel of `send_buffer` places
unfoldable pub new_client : Text → Hub → ℕ × Hub
new_client u h = (
  h.next_ref,
  record h {
    channels = record { ref = h.next_ref; user_id = u; queue = []; connected = true } ∷ h.channels;
    next_ref = suc h.next_ref;
  },
)

-- Register
unfoldable pub register : ℕ → Text → Hub → Hub
register r u h = record h {
  clients = put_set u (add_ref r (set_of u h.clients)) h.clients;
  ws_active = if h.met then inc h.ws_active else h.ws_active;
}

abbrev pub is_nil : List ℕ → Bool
is_nil [] = true
is_nil (_ ∷ _) = false

-- The map after delete(set, c), and delete(h.clients, c.userID) where nothing is left
unfoldable pub without_ref : ℕ → Text → List ℕ → List Entry → List Entry
without_ref r u s es =
    let left = delete_rows (λ x. r == x) s in
    if is_nil left then delete_set u es else put_set u left es

-- Unregister
unfoldable pub unregister : ℕ → Text → Hub → Hub
unfolding without_ref
unregister r u h = elim (lookup_set u h.clients) [
  | none ↦ h
  | some s ↦ record h {
    clients = without_ref r u s h.clients;
    ws_active = if h.met then dec h.ws_active else h.ws_active;
  }
]

-- select { case c.send <- cp: default: }
unfoldable pub try_send : Json → Client → Client
try_send p c =
    if ltb (length c.queue) send_buffer then record c { queue = c.queue ++ p ∷ [] } else c

-- The loop of SendToUser over the copied clients
unfoldable pub send_each : List ℕ → Json → List Client → List Client
unfolding try_send
send_each [] p cs = cs
send_each (r ∷ rs) p cs = send_each rs p (update_rows (λ c. Client.ref c == r) (try_send p) cs)

-- SendToUser
unfoldable pub send_to_user : Text → Json → Hub → Hub
unfolding send_each
send_to_user u p h = record h { channels = send_each (set_of u h.clients) p h.channels }

-- The loop of readPump over the frames that answer one inbound frame; a nil frame is skipped.
unfoldable pub reply : ℕ → List (Option Json) → Hub → Hub
reply r [] h = h
reply r (none ∷ outs) h = reply r outs h
reply r (some p ∷ outs) h =
    reply r outs
      (record h { channels = update_rows (λ c. Client.ref c == r) (try_send p) h.channels })

abbrev pub popped : List Json → List Json
popped [] = []
popped (p ∷ q) = q

-- The case of writePump that takes the next payload from the channel, to write it to the socket
unfoldable pub write_next : ℕ → Hub → Hub
write_next r h = record h {
  channels =
      update_rows (λ c. Client.ref c == r) (λ c. record c { queue = popped c.queue }) h.channels;
}

-- The two loops of CloseAll; closeForShutdown closes the connection and leaves the hub as it is.
unfoldable pub close_each : List ℕ → List Client → List Client
close_each [] cs = cs
close_each (r ∷ rs) cs =
    close_each rs (update_rows (λ c. Client.ref c == r) (λ c. record c { connected = false }) cs)

unfoldable pub all_refs : List Entry → List ℕ
all_refs [] = []
all_refs (e ∷ es) = e.1 ++ all_refs es

-- CloseAll
unfoldable pub close_all : Hub → Hub
unfolding close_each all_refs
close_all h = record h { channels = close_each (all_refs h.clients) h.channels }

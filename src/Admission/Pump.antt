-- ===== src/Admission/Pump.antt =====
-- backend/internal/transport/ws/client.go, readPump, which ServeHTTP ends with. The messages are those that
-- ReadMessage returns before it fails. HandleEvent answers with an error only where the pong does not
-- marshal, which its meta, a piece of JSON that was read, rules out.
use gomsg.Prelude.{ℕ, Text, Bool, Option, none, some, List, [], ◌∷◌, map}
use gomsg.Store.{Env, World}
use gomsg.Hub.{Hub, reply, unregister}
use gomsg.Redis.Presence.{disconnected}
use gomsg.Service.Sockets.{WsService, Decoder, handle_event}

-- The loop of readPump
unfoldable pub read_frames :
    Env → WsService → Decoder → ℕ → Text → List Text → World → Hub → World × Hub
read_frames env svc dec r uid [] w h = (w, h)
read_frames env svc dec r uid (m ∷ ms) w h =
    let (outs, w', h') = handle_event env svc dec uid m w h in
    read_frames env svc dec r uid ms w' (reply r (map some outs) h')

-- onDisconnect
unfoldable pub note_disconnected : Env → Option Bool → Text → World → World
note_disconnected env none uid w = w
note_disconnected env (some on) uid w = (disconnected env on uid w).1

-- readPump, with what it defers
unfoldable pub read_pump :
    Env → WsService → Decoder → Option Bool → ℕ → Text → List Text → World → Hub → World × Hub
unfolding read_frames note_disconnected
read_pump env svc dec presence r uid messages w h =
    let (w', h') = read_frames env svc dec r uid messages w h in
    (note_disconnected env presence uid w', unregister r uid h')

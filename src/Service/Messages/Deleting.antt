-- ===== src/Service/Messages/Deleting.antt =====
-- message_service.go, Delete and Get: a deleted message is out of reach.
use gomsg.Prelude.{◌≢◌, Text, some, ◌≡◌, refl, ◌∙◌, ap, to_lower, find_row}
use gomsg.Result.{ok}
use gomsg.Store.{Env, Db, World}
use gomsg.Tables.Messages.{has_id}
use gomsg.Tables.Messages.Lookup.{HasPrintedChats, select_message-eq, find-updated}
use gomsg.Service.MessageParts.{MessageDto, MessageService}
use gomsg.Service.Messages.{get, delete}
use gomsg.Service.Messages.Effects.{Got, Deleted, get-Got, delete-Deleted}

row_gone :
    (d : Db) (actor raw : Text) (d' : Db)
    → HasPrintedChats d
    → (x : Deleted d actor raw d')
    → find_row (has_id (to_lower x.target.id)) d'.messages
      ≡ some (record x.m { deleted_at = some x.written.now; updated_at = x.written.now })
row_gone d actor raw d' printed x =
    ap (λ e. find_row (has_id (to_lower x.target.id)) (Db.messages e))
      x.written.wrote.emitted.appended
    ∙ find-updated d printed x.target.id x.m x.target.found
        (λ m. record m { deleted_at = some x.written.now; updated_at = x.written.now }) (λ _. refl)
        x.target.live

never_seen :
    (d : Db) (actor raw : Text) (d' : Db) (user : Text) (dto : MessageDto) (d'' : Db)
    → HasPrintedChats d
    → Deleted d actor raw d'
    → Got d' user raw dto d''
    → ⊥
never_seen d actor raw d' user dto d'' printed x y =
    let same_id : x.target.id ≡ y.target.id = cc (x.target.parsed, y.target.parsed) in
    let gone : y.m ≡ record x.m { deleted_at = some x.written.now; updated_at = x.written.now } =
      cc (row_gone d actor raw d' printed x, select_message-eq y.target.id d' y.m y.target.found) in
    cc (y.target.live)

-- Where the chats of the stored messages are spelled as PostgreSQL prints them: once a delete
-- request has succeeded, no get request for the same message succeeds on the tables that it left,
-- for whatever user and whatever fails or not.
pub get-delete :
    (env : Env) (svc : MessageService) (w : World) (actor raw : Text)
    → HasPrintedChats w.db
    → (delete env svc actor raw w).0 ≡ ok tt
    → (env' : Env) (svc' : MessageService) (w' : World) (user : Text) (dto : MessageDto)
    → w'.db ≡ (delete env svc actor raw w).1.db
    → (get env' svc' user raw w').0 ≢ ok dto
get-delete env svc w actor raw printed h env' svc' w' user dto e g =
    never_seen w.db actor raw (delete env svc actor raw w).1.db user dto
      (get env' svc' user raw w').1.db printed
      ((delete-Deleted env svc w.db actor raw).at w tt refl h)
      ((get-Got env' svc' (delete env svc actor raw w).1.db user raw).at w' dto e g)

-- ===== src/Uuid.antt =====
-- The UUID pattern that chat_service.go, message_service.go and user_service.go compile each for
-- themselves, the parsers of path parameters over it, and PostgreSQL's cast `::uuid`.
use Prim.Native.Nat.{ℕ, zero, suc}
use gomsg.Prelude.{
  Text, Bool, false, ◌&&◌, ◌||◌, Option, none, some, [], ◌∷◌, leb, ◌==◌, if◌then◌else◌, is_empty,
  trim_space, to_lower, String,
}
use gomsg.Errors.{pg_error, validation_error}
use gomsg.Result.{Result, ok, fail}

-- [0-9a-fA-F]
unfoldable pub is_hex : ℕ → Bool
is_hex c = (leb b'0' c && leb c b'9') || (leb b'a' c && leb c b'f') || (leb b'A' c && leb c b'F')

-- Takes `n` hexadecimal digits off the front.
hex_run : ℕ → Text → Option Text
unfolding is_hex
hex_run zero s = some s
hex_run (suc n) [] = none
hex_run (suc n) (c ∷ s) = if is_hex c then hex_run n s else none

dash : Option Text → Option Text
dash none = none
dash (some []) = none
dash (some (c ∷ s)) = if c == b'-' then some s else none

hex_group : ℕ → Option Text → Option Text
unfolding hex_run
hex_group n none = none
hex_group n (some s) = hex_run n s

at_end : Option Text → Bool
at_end none = false
at_end (some s) = is_empty s

-- chatUUIDRe, msgUUIDRe and userUUIDRe
unfoldable pub uuid_match : Text → Bool
unfolding hex_group dash at_end
uuid_match s =
    let g1 = dash (hex_group 8 (some s)) in
    let g2 = dash (hex_group 4 g1) in
    let g3 = dash (hex_group 4 g2) in let g4 = dash (hex_group 4 g3) in at_end (hex_group 12 g4)

-- parseChatID, parseUserIDParam, parseMsgChatID and parseMsgID, which differ in the message
unfoldable pub parse_id : String → Text → Result Text
parse_id message raw =
    let s = trim_space raw in if uuid_match s then ok s else fail (validation_error message)

-- `$1::uuid`, read back by `id::text`: the canonical spelling is in lower case. PostgreSQL reads some
-- further spellings, with braces or without dashes, which the pattern above keeps out.
unfoldable pub cast_uuid : Text → Result Text
cast_uuid s = if uuid_match s then ok (to_lower s) else fail (pg_error "22P02")

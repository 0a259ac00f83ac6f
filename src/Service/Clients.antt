-- ===== src/Service/Clients.antt =====
-- backend/internal/service/auth_service.go: what a session keeps of the client that opened it, strOrNil
-- and trimIP, with net.SplitHostPort. An address is ASCII, where a byte is a code point.
use gomsg.Prelude.{
  ℕ, Text, Bool, ◌||◌, Option, none, some, [], ◌∷◌, ltb, take, is_empty, trim_space, byte_len, ◌==◌,
  false, if◌then◌else◌,
}

-- ClientMeta
pub record ClientMeta : Type 0 where
  pub user_agent : Text
  pub ip : Text

-- What is before the first `c`, and what is behind it
unfoldable pub cut : ℕ → Text → Option (Text × Text)
cut c [] = none
cut c (x ∷ s) =
    let rest = cut c s in
    if x == c then some ([], s) else elim rest [ none ↦ none | some p ↦ some (x ∷ p.0, p.1) ]

abbrev pub has_char : ℕ → Text → Bool
has_char c [] = false
has_char c (x ∷ s) = (x == c) || has_char c s

-- The host, where the port is behind the last colon and neither has a bracket
abbrev pub plain_host : Text × Text → Option Text
plain_host p =
    if has_char b':' p.1
      || has_char b'[' p.0
      || has_char b'[' p.1
      || has_char b']' p.0
      || has_char b']' p.1
    then none
    else some p.0

-- The host between brackets, where a colon and the port follow
abbrev pub bracket_host : Text × Text → Option Text
bracket_host (h, []) = none
bracket_host (h, x ∷ port) = if x == b':' then plain_host (h, port) else none

-- The host of net.SplitHostPort, or its error
unfoldable pub split_host : Text → Option Text
unfolding cut
split_host [] = none
split_host (x ∷ s) =
    if x == b'['
    then elim (cut b']' s) [ none ↦ none | some p ↦ bracket_host p ]
    else elim (cut b':' (x ∷ s)) [ none ↦ none | some p ↦ plain_host p ]

-- strOrNil
unfoldable pub str_or_nil : Text → Option Text
str_or_nil s = let t = trim_space s in if is_empty t then none else some t

abbrev pub host_or : Text → Option Text → Text
host_or ip none = ip
host_or ip (some host) = host

-- trimIP
unfoldable pub trim_ip : Text → Text
unfolding split_host
trim_ip raw =
    let ip = trim_space raw in
    let host = host_or ip (split_host ip) in if ltb 45 (byte_len host) then take 45 host else host

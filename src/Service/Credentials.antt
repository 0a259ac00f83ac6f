-- ===== src/Service/Credentials.antt =====
-- backend/internal/service/auth_service.go: the checks of a registration.
use gomsg.Prelude.{
  ℕ, suc, Text, Bool, true, false, not, ◌&&◌, ◌||◌, Option, none, some, [], ◌∷◌, leb, ◌==◌,
  if◌then◌else◌, is_empty, byte_len,
}
use gomsg.Errors.{validation_error}
use gomsg.Result.{Result, require, ◌>>◌}
use gomsg.Service.Profiles.{is_letter, is_digit, nickname_match, bad_nickname}

-- [a-zA-Z0-9._%+\-]
abbrev pub is_local : ℕ → Bool
is_local c =
    is_letter c
    || is_digit c
    || (c == b'.')
    || (c == b'_')
    || (c == b'%')
    || (c == b'+')
    || (c == b'-')

-- [a-zA-Z0-9.\-]
abbrev pub is_domain : ℕ → Bool
is_domain c = is_letter c || is_digit c || (c == b'.') || (c == b'-')

-- The letters since the last dot that has something before it, while only letters follow it
unfoldable pub next_tail : Bool → Option ℕ → ℕ → Option ℕ
next_tail seen tail c =
    if c == b'.'
    then (if seen then some 0 else none)
    else elim tail [ none ↦ none | some n ↦ if is_letter c then some (suc n) else none ]

-- [a-zA-Z0-9.\-]+\.[a-zA-Z]{2,}$, behind a part of it
unfoldable pub domain_match : Bool → Option ℕ → Text → Bool
unfolding next_tail
domain_match seen none [] = false
domain_match seen (some n) [] = leb 2 n
domain_match seen tail (c ∷ s) = is_domain c && domain_match true (next_tail seen tail c) s

-- [a-zA-Z0-9._%+\-]+@…, where `seen` says whether a character is there
unfoldable pub local_match : Bool → Text → Bool
unfolding domain_match
local_match seen [] = false
local_match seen (c ∷ s) =
    if c == b'@' then seen && domain_match false none s else is_local c && local_match true s

-- emailRe
unfoldable pub email_match : Text → Bool
unfolding local_match
email_match = local_match false

-- validateCredentials
unfoldable pub validate_credentials : Text → Text → Text → Result (Unit {0})
validate_credentials email nickname password = do
  require (not (is_empty email || is_empty nickname || is_empty password))
      (validation_error "email, nickname and password are required")
  require (leb (byte_len email) 320) (validation_error "email too long")
  require (email_match email) (validation_error "invalid email format")
  require (nickname_match nickname) bad_nickname
  require (leb 8 (byte_len password) && leb (byte_len password) 128)
      (validation_error "password length must be 8-128")

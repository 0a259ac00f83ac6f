-- ===== src/Tables/Messages/Wanted.antt =====
-- message_repository.go: what the WHERE clause of the listing and its order say of a message.
use gomsg.Prelude.{
  ℕ, ◌<◌, Text, Bool, true, false, ◌&&◌, not, Option, none, some, List, [], ◌∷◌, ◌≡◌, ◌↔◌, ◌⊎◌,
  refl, arith, text_eq, text_eq_iff, text_gt, find_row, All, All-map, is_some,
}
use gomsg.Domain.{Message}
use gomsg.Tables.Messages.{older, before_cursor, listed}
use gomsg.Tables.Messages.Order.{IsNewestFirst}

-- Before `b` in time, or at its time and with a smaller id
abbrev pub IsOlder : Message → Message → Type 0
IsOlder a b =
    (a.created_at < b.created_at) ⊎ ((a.created_at ≡ b.created_at) × (text_gt b.id a.id ≡ true))

pub older_iff : (a b : Message) → (older a b ≡ true) ↔ IsOlder a b
unfolding older
older_iff a b = (λ h. ground arith, λ h. ground (arith, h))

-- The message of a chat with an id
abbrev pub IsAnchor : Text → Text → List Message → Message → Type 0
IsAnchor chat id rows a =
    find_row (λ x. text_eq (Message.id x) id && text_eq x.chat_id chat) rows ≡ some a

-- Behind the cursor: older than the message that it names, or else before the time that it names
abbrev pub IsBefore : Text → Option Text → Option ℕ → List Message → Message → Type 0
IsBefore chat none none rows m = Unit
IsBefore chat none (some t) rows m = m.created_at < t
IsBefore chat (some id) time rows m = (a : Message) × IsAnchor chat id rows a × IsOlder m a

before_cursor_iff :
    (chat : Text) (id : Option Text) (time : Option ℕ) (rows : List Message) (m : Message)
    → (before_cursor id time chat rows m ≡ true) ↔ IsBefore chat id time rows m
unfolding before_cursor
before_cursor_iff chat none none rows m = (λ h. tt, λ h. refl)
before_cursor_iff chat none (some t) rows m = (λ h. ground arith, λ h. ground (arith, h))
before_cursor_iff chat (some id) time rows m =
    go (find_row (λ x. text_eq (Message.id x) id && text_eq x.chat_id chat) rows)
  where
    go :
        (o : Option Message)
        → (elim o [ none ↦ false | some a ↦ older m a ] ≡ true)
          ↔ ((a : Message) × (o ≡ some a) × IsOlder m a)
    go none = (λ h. absurd (cc), λ (a, e, h). absurd (cc))
    go (some x) =
        (λ h. (x, refl, (older_iff m x).0 h), λ (a, e, h). ground (arith, e, (older_iff m a).1 h))

-- A live message of the chat behind the cursor
abbrev pub IsWanted : Text → Option Text → Option ℕ → List Message → Message → Type 0
IsWanted chat id time rows m =
    (m.chat_id ≡ chat) × (m.deleted_at ≡ none) × IsBefore chat id time rows m

pub not_some_iff : (o : Option ℕ) → (not (is_some o) ≡ true) ↔ (o ≡ none)
not_some_iff none = (λ h. refl, λ h. refl)
not_some_iff (some t) = (λ h. absurd (cc), λ h. absurd (cc))

pub and_iff : (a b : Bool) → ((a && b) ≡ true) ↔ ((a ≡ true) × (b ≡ true))
and_iff true b = (λ h. (refl, h), λ h. h.1)
and_iff false b = (λ h. absurd (cc), λ h. absurd (cc))

pub listed_iff :
    (chat : Text) (id : Option Text) (time : Option ℕ) (rows : List Message) (m : Message)
    → (listed chat id time rows m ≡ true) ↔ IsWanted chat id time rows m
listed_iff chat id time rows m = (
  λ h.
      let k = (and_iff _ _).0 h in
      let l = (and_iff _ _).0 k.0 in
      (
        (text_eq_iff m.chat_id chat).0 l.0,
        (not_some_iff m.deleted_at).0 l.1,
        (before_cursor_iff chat id time rows m).0 k.1,
      ),
  λ h. (and_iff _ _).1 (
    (and_iff _ _).1 ((text_eq_iff m.chat_id chat).1 h.0, (not_some_iff m.deleted_at).1 h.1),
    (before_cursor_iff chat id time rows m).1 h.2,
  ),
)

-- No message is older than one behind it.
abbrev pub NoneOlder : List Message → Type 0
NoneOlder [] = Unit
NoneOlder (m ∷ ms) = All (λ x. ¬ IsOlder m x) ms × NoneOlder ms

pub IsNewestFirst-NoneOlder : (ms : List Message) → IsNewestFirst ms → NoneOlder ms
IsNewestFirst-NoneOlder [] h = tt
IsNewestFirst-NoneOlder (m ∷ ms) h = (
  All-map _ _ (λ x e k. absurd (ground (arith, e, (older_iff m x).1 k))) ms h.0,
  IsNewestFirst-NoneOlder ms h.1,
)

-- ===== src/Tables/Sessions/Writes.antt =====
-- session_repository.go: what the statements that write leave usable.
use gomsg.Prelude.{
  ℕ, Text, Bool, true, false, none, some, List, [], ◌∷◌, ◌≡◌, refl, sym, ap, subst, ◌∙◌, arith,
  is_some, to_lower, text_eq, text_eq_iff, text_eq_refl, find_row, All-find_row, any_row,
  any_row-update_rows, All-updated, updated, Bool-cases, inl, inr, if◌then◌else◌,
}
use gomsg.Result.{ok}
use gomsg.Domain.{RefreshSession}
use gomsg.Store.{Db}
use gomsg.Uuid.{cast_uuid}
use gomsg.Tables.Sessions.{
  has_hash, usable, insert_session, revoked, revoke_by_id, revoke_session, live_id,
}
use gomsg.Tables.Sessions.Usable.{HasSoundSessions, only, IsSpent, revoked-IsSpent}

-- What an inserted session is.
pub record InsertedSession (drawn : Text) (now : ℕ) (s : RefreshSession) (d : Db)
    (row : RefreshSession) (d' : Db) : Type 0 where
  pub id : row.id ≡ to_lower drawn
  pub user_id : row.user_id ≡ to_lower s.user_id
  pub token_hash : row.token_hash ≡ s.token_hash
  pub expires_at : row.expires_at ≡ s.expires_at
  pub live : row.revoked_at ≡ none
  pub unused : any_row (has_hash s.token_hash) d.sessions ≡ false
  pub stored : d' ≡ record d { sessions = row ∷ d.sessions }

pub insert_session-InsertedSession :
    (drawn : Text) (now : ℕ) (s : RefreshSession) (d : Db) (row : RefreshSession) (d' : Db)
    → insert_session drawn now s d ≡ ok (row, d')
    → InsertedSession drawn now s d row d'
unfolding insert_session cast_uuid
insert_session-InsertedSession drawn now s d row d' h = ground arith

pub revoke_by_id-eq :
    (raw : Text) (now : ℕ) (d : Db) (u : Unit {0}) (d' : Db)
    → revoke_by_id raw now d ≡ ok (u, d')
    → d' ≡ record d { sessions = revoked (λ s. text_eq s.id (to_lower raw)) now d.sessions }
unfolding revoke_by_id cast_uuid
revoke_by_id-eq raw now d u d' h = ground arith

found-any_row :
    (h : Text) (t : ℕ) (ss : List RefreshSession) (old : RefreshSession)
    → find_row (usable h t) ss ≡ some old
    → any_row (has_hash h) ss ≡ true
unfolding find_row any_row
found-any_row h t [] old e = absurd (cc)
found-any_row h t (x ∷ ss) old e = elim (Bool-cases (usable h t x)) [
  | inl k ↦ ground arith
  | inr k ↦ ground (arith, found-any_row h t ss old)
]

-- A rotation leaves nothing that the old hash could use: the new row has another hash, since the index
-- counts revoked rows too.
pub rotated-IsSpent :
    (h : Text) (t now : ℕ) (drawn : Text) (s : RefreshSession) (d : Db) (old row : RefreshSession)
    (d' : Db)
    → HasSoundSessions d
    → find_row (usable h t) d.sessions ≡ some old
    → InsertedSession drawn now s
        (record d { sessions = revoked (λ x. text_eq x.id (to_lower old.id)) now d.sessions })
        row
        d'
    → IsSpent h d'.sessions
rotated-IsSpent h t now drawn s d old row d' k e i =
    subst (IsSpent h) (sym (ap Db.sessions i.stored)) (other, revoked-IsSpent h t now d old k e)
  where
    still :
        any_row (has_hash h) (revoked (λ x. text_eq x.id (to_lower old.id)) now d.sessions) ≡ true
    still =
        any_row-update_rows (has_hash h) (λ x. text_eq x.id (to_lower old.id))
          (λ x. record x { revoked_at = some now }) (λ x. refl) d.sessions
        ∙ found-any_row h t d.sessions old e

    other : has_hash h row ≡ true → is_some row.revoked_at ≡ true
    other y = absurd (
        clash (
          subst
            (λ g.
              any_row (has_hash g) (revoked (λ x. text_eq x.id (to_lower old.id)) now d.sessions)
              ≡ false)
            (sym i.token_hash ∙ ground (arith, y, text_eq_iff row.token_hash h)) i.unused))
      where
        clash :
            any_row (has_hash h) (revoked (λ x. text_eq x.id (to_lower old.id)) now d.sessions)
              ≡ false
            → ⊥
        clash c = cc (still)

pub revoke_session-eq :
    (raw : Text) (now : ℕ) (d : Db) (b : Bool) (d' : Db)
    → revoke_session raw now d ≡ ok (b, d')
    → d' ≡ record d { sessions = revoked (live_id (to_lower raw)) now d.sessions }
unfolding revoke_session cast_uuid
revoke_session-eq raw now d b d' h = ground arith

-- After Revoke of the found row, nothing of its hash can be used.
pub logged_out-IsSpent :
    (h : Text) (t now : ℕ) (d : Db) (old : RefreshSession)
    → HasSoundSessions d
    → find_row (usable h t) d.sessions ≡ some old
    → IsSpent h (revoked (live_id (to_lower old.id)) now d.sessions)
logged_out-IsSpent h t now d old k e =
    All-updated (λ s. has_hash h s ≡ true → s ≡ old)
      (λ s. has_hash h s ≡ true → is_some (RefreshSession.revoked_at s) ≡ true)
      (live_id (to_lower old.id)) (λ s. record s { revoked_at = some now }) one d.sessions
      (only h t d.sessions old k.distinct e)
  where
    matches : text_eq old.id (to_lower old.id) ≡ true
    matches =
        subst (λ i. text_eq old.id i ≡ true)
          (sym (
            All-find_row (λ s. to_lower (RefreshSession.id s) ≡ s.id) (usable h t) d.sessions old
              k.printed e))
          (text_eq_refl old.id)

    one :
        (s : RefreshSession)
        → (has_hash h s ≡ true → s ≡ old)
        → has_hash h
            (updated (live_id (to_lower old.id)) (λ x. record x { revoked_at = some now }) s)
          ≡ true
        → is_some (
            RefreshSession.revoked_at
              (updated (live_id (to_lower old.id)) (λ x. record x { revoked_at = some now }) s))
          ≡ true
    one s is y = go (live_id (to_lower old.id) s) refl y
      where
        go :
            (b : Bool)
            → live_id (to_lower old.id) s ≡ b
            → has_hash h (if b then record s { revoked_at = some now } else s) ≡ true
            → is_some
                (RefreshSession.revoked_at (if b then record s { revoked_at = some now } else s))
              ≡ true
        go true b z = refl
        go false b z =
            ground
              (arith, ap (λ x. text_eq (RefreshSession.id x) (to_lower old.id)) (is z), matches)

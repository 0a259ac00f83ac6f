-- ===== src/Tables/Sessions/Usable.antt =====
-- session_repository.go: the sessions that a token can still use.
use gomsg.Prelude.{
  ℕ, Text, Bool, true, false, some, List, [], ◌∷◌, ◌≡◌, refl, sym, subst, arith, is_some, to_lower,
  text_eq, text_eq_iff, text_eq_refl, find_row, find_row-some, All-find_row, ◌≢◌, any_row, All,
  All-map, All-updated, updated, Bool-cases, inl, inr, if◌then◌else◌,
}
use gomsg.Domain.{RefreshSession}
use gomsg.Store.{Db}
use gomsg.Tables.Sessions.{has_hash, usable, revoked}

-- The unique index on token_hash.
abbrev pub HasDistinctHashes : List RefreshSession → Type 0
HasDistinctHashes [] = Unit
HasDistinctHashes (s ∷ ss) = (any_row (has_hash s.token_hash) ss ≡ false) × HasDistinctHashes ss

-- The index holds, and the ids are spelled as PostgreSQL prints them.
pub record HasSoundSessions (d : Db) : Type 0 where
  pub distinct : HasDistinctHashes d.sessions
  pub printed : All (λ s. to_lower (RefreshSession.id s) ≡ s.id) d.sessions

none_with :
    (h : Text) (ss : List RefreshSession)
    → any_row (has_hash h) ss ≡ false
    → All (λ s. has_hash h s ≡ false) ss
unfolding any_row
none_with h [] e = tt
none_with h (s ∷ ss) e = (ground arith, none_with h ss (ground arith))

-- Only the row that is found has the hash.
pub only :
    (h : Text) (t : ℕ) (ss : List RefreshSession) (old : RefreshSession)
    → HasDistinctHashes ss
    → find_row (usable h t) ss ≡ some old
    → All (λ s. has_hash h s ≡ true → s ≡ old) ss
unfolding find_row
only h t [] old d e = tt
only h t (x ∷ ss) old d e = go (usable h t x) refl (only h t ss old d.1)
  where
    go :
        (b : Bool)
        → usable h t x ≡ b
        → (find_row (usable h t) ss ≡ some old → All (λ s. has_hash h s ≡ true → s ≡ old) ss)
        → All (λ s. has_hash h s ≡ true → s ≡ old) (x ∷ ss)
    go true k r = (
      (λ _. ground (arith, k)),
      All-map (λ s. has_hash h s ≡ false) (λ s. has_hash h s ≡ true → s ≡ old)
          (λ s n y. absurd (cc)) ss
          (none_with h ss (
            subst (λ g. any_row (has_hash g) ss ≡ false)
              (ground (arith, k, text_eq_iff x.token_hash h)) d.0)),
    )
    go false k r = (at_head, r (ground (arith, k)))
      where
        at_head : has_hash h x ≡ true → x ≡ old
        at_head y = absurd (
            clash (find_row-some (usable h t) ss old (ground (arith, k))) (
              All-find_row (λ s. has_hash h s ≡ false) (usable h t) ss old
                (none_with h ss (
                  subst (λ g. any_row (has_hash g) ss ≡ false)
                    (ground (arith, y, text_eq_iff x.token_hash h)) d.0))
                (ground (arith, k))))
          where
            clash : usable h t old ≡ true → has_hash h old ≡ false → ⊥
            clash u v = ground arith

-- No session of a list whose hash is `h` can be used.
abbrev pub IsSpent : Text → List RefreshSession → Type 0
IsSpent h = All (λ s. has_hash h s ≡ true → is_some (RefreshSession.revoked_at s) ≡ true)

pub spent-unusable :
    (h : Text) (t : ℕ) (ss : List RefreshSession) (s : RefreshSession)
    → IsSpent h ss
    → find_row (usable h t) ss ≢ some s
unfolding find_row
spent-unusable h t [] s a e = absurd (cc)
spent-unusable h t (x ∷ ss) s a e = elim (Bool-cases (has_hash h x)) [
  | inl y ↦ spent-unusable h t ss s a.1 (ground (arith, a.0 y))
  | inr n ↦ spent-unusable h t ss s a.1 (ground arith)
]

-- After the update of the found row, no row of its hash can be used.
pub revoked-IsSpent :
    (h : Text) (t now : ℕ) (d : Db) (old : RefreshSession)
    → HasSoundSessions d
    → find_row (usable h t) d.sessions ≡ some old
    → IsSpent h (revoked (λ s. text_eq s.id (to_lower old.id)) now d.sessions)
revoked-IsSpent h t now d old k e =
    All-updated (λ s. has_hash h s ≡ true → s ≡ old)
      (λ s. has_hash h s ≡ true → is_some (RefreshSession.revoked_at s) ≡ true)
      (λ s. text_eq s.id (to_lower old.id)) (λ s. record s { revoked_at = some now }) one d.sessions
      (only h t d.sessions old k.distinct e)
  where
    matches : text_eq old.id (to_lower old.id) ≡ true
    matches =
        subst (λ i. text_eq old.id i ≡ true)
          (sym (
            All-find_row (λ s. to_lower (RefreshSession.id s) ≡ s.id) (usable h t) d.sessions old
              k.printed e))
          (text_eq_refl old.id)

    one :
        (s : RefreshSession)
        → (has_hash h s ≡ true → s ≡ old)
        → has_hash h (
            updated
              (λ x. text_eq x.id (to_lower old.id))
              (λ x. record x { revoked_at = some now })
              s)
          ≡ true
        → is_some (
            RefreshSession.revoked_at (
              updated
                (λ x. text_eq x.id (to_lower old.id))
                (λ x. record x { revoked_at = some now })
                s))
          ≡ true
    one s is y = go (text_eq s.id (to_lower old.id)) refl y
      where
        go :
            (b : Bool)
            → text_eq s.id (to_lower old.id) ≡ b
            → has_hash h (if b then record s { revoked_at = some now } else s) ≡ true
            → is_some
                (RefreshSession.revoked_at (if b then record s { revoked_at = some now } else s))
              ≡ true
        go true b z = refl
        go false b z =
            absurd (
              clash (subst (λ x. text_eq (RefreshSession.id x) (to_lower old.id) ≡ false) (is z) b))
          where
            clash : text_eq old.id (to_lower old.id) ≡ false → ⊥
            clash c = cc (matches)

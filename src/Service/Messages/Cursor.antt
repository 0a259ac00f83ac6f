-- ===== src/Service/Messages/Cursor.antt =====
-- message_service.go, parseBeforeCursor: what a cursor of ListByChat names.
use gomsg.Prelude.{
  ℕ, Text, Bool, Option, [], ◌≡◌, refl, ap, ◌⊎◌, arith, inl, inr, true, false, none, some, ◌∷◌,
  trim_space, to_lower,
}
use gomsg.Result.{ok}
use gomsg.Uuid.{cast_uuid, uuid_match}
use gomsg.Tables.Messages.{cast_cursor}
use gomsg.Service.MessageParts.{Layout, parse_before_cursor, time_cursor}

-- What `before` names: nothing where it is empty, the message with an id, or a time in one of two layouts.
-- White space around it is not read.
abbrev pub IsCursor : (Layout → Text → Option ℕ) → Text → Option Text → Option ℕ → Type 0
IsCursor parse_time raw id time =
    ((trim_space raw ≡ []) × (id ≡ none) × (time ≡ none))
    ⊎ (((uuid_match (trim_space raw) ≡ true)
          × (id ≡ some (to_lower (trim_space raw)))
          × (time ≡ none))
        ⊎ ((uuid_match (trim_space raw) ≡ false)
            × (id ≡ none)
            × ((t : ℕ) × (time ≡ some t)
                × ((parse_time Layout.rfc3339_nano (trim_space raw) ≡ some t)
                    ⊎ ((parse_time Layout.rfc3339_nano (trim_space raw) ≡ none)
                        × (parse_time Layout.rfc3339 (trim_space raw) ≡ some t))))))

cast_none :
    (cursor : Option Text × Option ℕ) (before_id : Option Text) (t : Option ℕ)
    → cast_cursor cursor.0 ≡ ok before_id
    → cursor ≡ (none, t)
    → (before_id ≡ none) × (cursor.1 ≡ t)
cast_none cursor before_id t c e = (ground (arith, c, ap (λ p. cast_cursor p.0) e), ap (λ p. p.1) e)

cast_some :
    (cursor : Option Text × Option ℕ) (before_id : Option Text) (s : Text)
    → cast_cursor cursor.0 ≡ ok before_id
    → uuid_match s ≡ true
    → cursor ≡ (some s, none)
    → (before_id ≡ some (to_lower s)) × (cursor.1 ≡ none)
unfolding cast_uuid
cast_some cursor before_id s c u e =
    (ground (arith, c, u, ap (λ p. cast_cursor p.0) e), ap (λ p. p.1) e)

pub parse_before_cursor-IsCursor :
    (parse_time : Layout → Text → Option ℕ) (raw : Text) (cursor : Option Text × Option ℕ)
    (before_id : Option Text)
    → parse_before_cursor parse_time raw ≡ ok cursor
    → cast_cursor cursor.0 ≡ ok before_id
    → IsCursor parse_time raw before_id cursor.1
unfolding parse_before_cursor time_cursor
parse_before_cursor-IsCursor parse_time raw cursor before_id e c =
    go (trim_space raw) (uuid_match (trim_space raw))
      (parse_time Layout.rfc3339_nano (trim_space raw)) (parse_time Layout.rfc3339 (trim_space raw))
      refl refl refl refl
  where
    go :
        (s : Text) (b : Bool) (nano second : Option ℕ)
        → trim_space raw ≡ s
        → uuid_match (trim_space raw) ≡ b
        → parse_time Layout.rfc3339_nano (trim_space raw) ≡ nano
        → parse_time Layout.rfc3339 (trim_space raw) ≡ second
        → IsCursor parse_time raw before_id cursor.1
    go [] b nano second q u n k =
        let o = cast_none cursor before_id none c (ground arith) in inl (q, o.0, o.1)
    go (x ∷ s) true nano second q u n k =
        let o = cast_some cursor before_id (trim_space raw) c u (ground arith) in
        inr (inl (u, o.0, o.1))
    go (x ∷ s) false (some t) second q u n k =
        let o = cast_none cursor before_id (some t) c (ground arith) in
        inr (inr (u, o.0, (t, o.1, inl n)))
    go (x ∷ s) false none (some t) q u n k =
        let o = cast_none cursor before_id (some t) c (ground arith) in
        inr (inr (u, o.0, (t, o.1, inr (n, k))))
    go (x ∷ s) false none none q u n k = absurd (ground arith)

-- ===== src/Service/Chats/Collected.antt =====
-- chat_service.go and chat_repository.go: what the loops over user ids keep of them.
use gomsg.Prelude.{
  Text, Bool, true, false, not, ◌&&◌, ◌||◌, List, [], ◌∷◌, ◌≡◌, refl, arith, trim_space, text_eq,
  text_eq_iff, text_eq_refl, any_row, All, All-map, Any, inl, inr, is_empty,
}
use gomsg.Errors.{not_found_error}
use gomsg.Domain.{AddChatMember}
use gomsg.Store.{Env, Db, pure, on_error, ◌>>=◌, ◌>>◌}
use gomsg.Store.Effects.{ReadOnly-on_error}
use gomsg.Store.Outcome.{Yields, Yields-pure, Yields-map, Yields-bind, Yields-skip}
use gomsg.Store.Steps.{Yields-ensure}
use gomsg.Uuid.{uuid_match}
use gomsg.Repository.Chats.{known, to_add}
use gomsg.Repository.Users.{get_user}
use gomsg.Service.MessageParts.{unless_found}
use gomsg.Service.Chats.{LoopErrors, collect_users}
use gomsg.Service.Chats.Effects.{get_user-ReadOnly}

-- Each raw id, without the white space around it, is among `seen` or `ids`.
abbrev pub Covers : List Text → List Text → List Text → Type 0
Covers seen ids = All (λ raw. (known (trim_space raw) seen || known (trim_space raw) ids) ≡ true)

-- Each raw id is a UUID, with white space around it or not.
abbrev pub AreIds : List Text → Type 0
AreIds = All (λ raw. (not (is_empty (trim_space raw)) && uuid_match (trim_space raw)) ≡ true)

-- Each id is one of the raw ids, without the white space around it.
abbrev pub AreDrawn : List Text → List Text → Type 0
AreDrawn raws = All (λ id. Any (λ raw. id ≡ trim_space raw) raws)

abbrev Collected : Db → List Text → List Text → List Text → Db → Type 0
Collected d seen raws ids d' = (d' ≡ d) × Covers seen ids raws × AreIds raws × AreDrawn raws ids

shift :
    (id : Text) (seen rest raws : List Text)
    → Covers (id ∷ seen) rest raws
    → Covers seen (id ∷ rest) raws
shift id seen rest = All-map _ _ λ raw h. unfold known in ground (arith, h)

module _ (env : Env) (errs : LoopErrors) where
  pub collect_users-Covers :
      (d : Db) (seen raws : List Text)
      → Yields d (Collected d seen raws) (collect_users env errs seen raws)
  unfolding collect_users
  collect_users-Covers d seen [] = Yields-pure [] (refl, tt, tt, tt)
  collect_users-Covers d seen (raw ∷ raws) = Yields-ensure _ _ _ λ valid.
      go valid (known (trim_space raw) seen) refl (collect_users-Covers d seen raws)
        (collect_users-Covers d (trim_space raw ∷ seen) raws)
    where
      go :
          (not (is_empty (trim_space raw)) && uuid_match (trim_space raw)) ≡ true
          → (b : Bool) → known (trim_space raw) seen ≡ b
          → Yields d (Collected d seen raws) (collect_users env errs seen raws)
          → Yields d
              (Collected d (trim_space raw ∷ seen) raws)
              (collect_users env errs (trim_space raw ∷ seen) raws)
          → Yields d (Collected d seen (raw ∷ raws)) (elim b [
            | true ↦ collect_users env errs seen raws
            | false ↦ do
              on_error
                  (unless_found (not_found_error errs.missing) errs.lookup)
                  (get_user env (trim_space raw))
              rest ← collect_users env errs (trim_space raw ∷ seen) raws
              pure (trim_space raw ∷ rest)
          ])
      go v true e a b =
          Yields-map _ _ a λ ids d' h.
            (h.0, (ground (arith, e), h.1), (v, h.2), All-map _ _ (λ id a. inr a) ids h.3)
      go v false e a b =
          Yields-skip _ _ (ReadOnly-on_error _ _ (get_user-ReadOnly env (trim_space raw))) λ _.
            Yields-bind _ _ _ b λ rest d' h. Yields-pure (trim_space raw ∷ rest) (
              h.0,
              (
                unfold known in ground (arith, text_eq_refl (trim_space raw)),
                shift (trim_space raw) seen rest raws h.1,
              ),
              (v, h.2),
              (inl refl, All-map _ _ (λ id a. inr a) rest h.3),
            )

-- Whether a user is to be added
abbrev pub added_in : List AddChatMember → Text → Bool
added_in rows u = any_row (λ a. text_eq u (AddChatMember.user_id a)) rows

pub to_add-has :
    (seen others : List Text) (u : Text)
    → is_empty u ≡ false
    → known u others ≡ true
    → known u seen || added_in (to_add seen others) u ≡ true
unfolding to_add known any_row
to_add-has seen [] u e h = absurd (cc)
to_add-has seen (x ∷ others) u e h =
    ground (arith, text_eq_iff u x, to_add-has seen others u e, to_add-has (x ∷ seen) others u e)

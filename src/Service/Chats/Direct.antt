-- ===== src/Service/Chats/Direct.antt =====
-- chat_service.go, CreateDirect: one live chat for a pair of users.
use gomsg.Prelude.{
  ℕ, zero, suc, Text, true, false, some, List, ◌∷◌, ◌≡◌, refl, sym, ap, subst, ◌∙◌, ◌⊎◌, inl, inr,
  arith, trim_space, text_eq_refl, to_lower, any_row, find_row,
}
use gomsg.Errors.{is_not_found}
use gomsg.Result.{Result, ok, fail}
use gomsg.Domain.{Chat, ChatType, ChatMember, AddChatMember}
use gomsg.Store.{Env, Db, Go, World, caught, pure, ◌>>◌}
use gomsg.Store.Effects.{IsAtomic, IsAtomic-on_db, ReadOnly-query}
use gomsg.Store.Outcome.{
  Yields, Either, Yields-raise, Yields-pure, Yields-if, Yields-map, Yields-bind, Yields-caught,
  Yields-on_error, Yields-exec-on_db,
}
use gomsg.Store.Steps.{Yields-of_query, Yields-ensure, Yields-lift, Yields-query_or}
use gomsg.Uuid.{cast_uuid}
use gomsg.Tables.Chats.{is_member_row, select_membership}
use gomsg.Tables.Chats.Creation.{select_direct, is_live_direct, insert_chat, insert_members}
use gomsg.Tables.Chats.Keys.{InsertedChat, insert_chat-InsertedChat}
use gomsg.Tables.Chats.Added.{Within}
use gomsg.Tables.Chats.Grown.{find_row-any, is_member, Grown, insert_members-Grown}
use gomsg.Service.Membership.{require_membership}
use gomsg.Repository.Chats.{
  find_membership, create_chat, add_members, blank_chat, get_direct_by_key,
}
use gomsg.Repository.Users.{get_user}
use gomsg.Service.ChatParts.{ChatDetail, chat_detail, direct_key, both, is_unique_violation}
use gomsg.Service.Chats.{
  require_member, use_direct, after_create, after_lookup, open_direct, create_direct,
}
use gomsg.Tables.Chats.Live.{IsLiveDirect, is_live_direct_iff, select_direct-IsLiveDirect}

-- What a successful CreateDirect leaves: a live direct chat of the key, which it answers with and of
-- which the actor is a member. It was there before, and then the peer is a member too or, where the
-- write of the memberships failed, they are as they were; or it is new, no live chat had the key, and
-- the peer is a member too. No membership is gone.
pub record Opened (actor peer key : Text) (d : Db) (out : ChatDetail) (d' : Db) : Type 0 where
  pub chat : Chat
  pub found : select_direct key d' ≡ ok chat
  pub direct : IsLiveDirect key chat
  pub detail : out ≡ chat_detail chat
  pub member : is_member chat.id actor d' ≡ true
  pub chats :
      ((d'.chats ≡ d.chats) × ((is_member chat.id peer d' ≡ true) ⊎ (d'.members ≡ d.members)))
      ⊎ ((d'.chats ≡ chat ∷ d.chats)
          × (any_row (is_live_direct key) d.chats ≡ false)
          × (is_member chat.id peer d' ≡ true))
  pub within : Within d.members d'.members

select_membership-is_member :
    (c u : Text) (d : Db) (m : ChatMember) → select_membership c u d ≡ ok m → is_member c u d ≡ true
unfolding select_membership cast_uuid
select_membership-is_member c u d m h =
    ground (arith, find_row-any (is_member_row (to_lower c) (to_lower u)) d.members m)

module _ (env : Env) where
  pub add_members-Grown :
      (c : Text) (a : AddChatMember) (adds : List AddChatMember) (d : Db)
      → Yields d (λ _ d'. Grown c (a ∷ adds) d d') (add_members env c (a ∷ adds))
  unfolding add_members
  add_members-Grown c a adds d =
      Yields-exec-on_db env (λ w. insert_members c (a ∷ adds) (env.clock w.tick))
        λ w u d' e. insert_members-Grown c (a ∷ adds) (env.clock w.tick) d u d' e

  add_both-IsAtomic : (c actor peer : Text) → IsAtomic (add_members env c (both actor peer))
  unfolding add_members
  add_both-IsAtomic c actor peer =
      IsAtomic-on_db env (λ w. insert_members c (both actor peer) (env.clock w.tick))

  pub require_member-finds :
      (c u : Text) (d : Db)
      → Yields d (λ _ d'. (d' ≡ d) × (is_member c u d ≡ true)) (require_member env c u)
  unfolding require_member require_membership find_membership
  require_member-finds c u d =
      Yields-query_or _ env _ _ λ m e. Yields-pure tt (refl, select_membership-is_member c u d m e)

module _ (env : Env) (hash : Text → Text) (actor peer key : Text) where
  use_direct-Opened :
      (c : Chat) (d : Db)
      → select_direct key d ≡ ok c
      → Yields d (Opened actor peer key d) (use_direct env hash actor peer c)
  unfolding use_direct select_direct
  use_direct-Opened c d s = Yields-bind _ _ _ (require_member-finds env c.id actor d) λ _ d1 h.
      subst
        (λ x.
          Yields x (Opened actor peer key d)
            (do caught (add_members env c.id (both actor peer)); pure (chat_detail c)))
        (sym h.0)
        (Yields-bind (Either (λ _ d'. Grown c.id (both actor peer) d d') (λ _ d'. d' ≡ d)) _ _
          (Yields-caught _ _ _ (add_members-Grown env c.id _ _ d)
            λ w x q p. (add_both-IsAtomic env c.id actor peer).same w x p ∙ q)
          λ r d2 g. Yields-pure (chat_detail c) (used r d2 h.1 g))
    where
      used :
          (r : Result (Unit {0})) (d2 : Db)
          → is_member c.id actor d ≡ true
          → Either (λ _ d'. Grown c.id (both actor peer) d d') (λ _ d'. d' ≡ d) r d2
          → Opened actor peer key d (chat_detail c) d2
      used (ok u) d2 m g = record {
        chat = c;
        found = ap (λ cs. select_direct key (record d { chats = cs })) g.chats ∙ s;
        direct = select_direct-IsLiveDirect key d c s;
        detail = refl;
        member = g.has.0;
        chats = inl (g.chats, inl g.has.1.0);
        within = g.within;
      }
      used (fail e) d2 m g = record {
        chat = c;
        found = ap (select_direct key) g ∙ s;
        direct = select_direct-IsLiveDirect key d c s;
        detail = refl;
        member = subst (λ x. is_member c.id actor x ≡ true) (sym g) m;
        chats = inl (ap Db.chats g, inr (ap Db.members g));
        within = λ p t. subst (λ x. any_row p (Db.members x) ≡ true) (sym g) t;
      }

  -- The tables with a new direct chat
  abbrev New : Db → Chat → Db → Type 0
  New d c d' =
      (d'.chats ≡ c ∷ d.chats)
      × (d'.members ≡ d.members)
      × (is_live_direct key c ≡ true)
      × (any_row (is_live_direct key) d.chats ≡ false)

  created-New :
      (drawn : Text) (now : ℕ) (d : Db) (row : Chat) (d' : Db)
      → InsertedChat drawn now (blank_chat ChatType.direct (some key)) d row d'
      → New d row d'
  created-New drawn now d row d' i = (
    ap Db.chats i.stored,
    ap Db.members i.stored,
    ground (arith, i.type, i.live, i.direct_key, text_eq_refl key),
    i.key_free,
  )

  create_chat-New :
      (d : Db) → Yields d (New d) (create_chat env (blank_chat ChatType.direct (some key)))
  unfolding create_chat
  create_chat-New d =
      Yields-exec-on_db env
        (λ w.
          insert_chat (env.uuid w.tick) (env.clock w.tick) (blank_chat ChatType.direct (some key)))
        λ w c d' e. created-New (env.uuid w.tick) (env.clock w.tick) d c d' (
          insert_chat-InsertedChat (env.uuid w.tick) (env.clock w.tick)
            (blank_chat ChatType.direct (some key)) d c d' e)

  create_chat-IsAtomic : (c : Chat) → IsAtomic (create_chat env c)
  unfolding create_chat
  create_chat-IsAtomic c =
      IsAtomic-on_db env (λ w. insert_chat (env.uuid w.tick) (env.clock w.tick) c)

  add_members-Opened :
      (c : Chat) (d d1 d2 : Db)
      → New d c d1
      → Grown c.id (both actor peer) d1 d2
      → Opened actor peer key d (chat_detail c) d2
  unfolding select_direct find_row
  add_members-Opened c d d1 d2 n g = record {
    chat = c;
    found = ground (arith, ap (λ cs. find_row (is_live_direct key) cs) (g.chats ∙ n.0), n.2);
    direct = (is_live_direct_iff key c).0 n.2;
    detail = refl;
    member = g.has.0;
    chats = inr (g.chats ∙ n.0, n.3, g.has.1.0);
    within = λ p t. g.within p (subst (λ ms. any_row p ms ≡ true) (sym n.1) t);
  }

  after_create-Opened :
      (again : Go ChatDetail) (r : Result Chat) (d d1 : Db)
      → Yields d (Opened actor peer key d) again
      → Either (New d) (λ _ d'. d' ≡ d) r d1
      → Yields d1 (Opened actor peer key d) (after_create env hash actor peer again r)
  unfolding after_create
  after_create-Opened again (ok c) d d1 h n =
      Yields-bind (λ _ d'. Grown c.id (both actor peer) d1 d') _ _
        (Yields-on_error _ _ (add_members-Grown env c.id _ _ d1))
        λ _ d2 g. Yields-pure (chat_detail c) (add_members-Opened c d d1 d2 n g)
  after_create-Opened again (fail e) d d1 h n =
      Yields-if (is_unique_violation e)
        (subst (λ x. Yields x (Opened actor peer key d) again) (sym n) h) (Yields-raise _)

  after_lookup-Opened :
      (again : Go ChatDetail) (r : Result Chat) (d : Db)
      → Yields d (Opened actor peer key d) again
      → ((c : Chat) → r ≡ ok c → select_direct key d ≡ ok c)
      → Yields d (Opened actor peer key d) (after_lookup env hash actor peer key again r)
  unfolding after_lookup
  after_lookup-Opened again (ok c) d h s = use_direct-Opened c d (s c refl)
  after_lookup-Opened again (fail e) d h s =
      Yields-if (is_not_found e)
        (Yields-bind (Either (New d) (λ _ d'. d' ≡ d)) _ _
          (Yields-caught (New d) (λ _ d'. d' ≡ d) _ (create_chat-New d)
            λ w x q p. (create_chat-IsAtomic _).same w x p ∙ q)
          λ r d1 n. after_create-Opened again r d d1 h n)
        (Yields-raise _)

  open_direct-Opened :
      (n : ℕ) (d : Db) → Yields d (Opened actor peer key d) (open_direct env hash n actor peer key)
  unfolding open_direct get_direct_by_key
  open_direct-Opened zero d = Yields-raise _
  open_direct-Opened (suc n) d =
      Yields-bind (Either (λ c d'. (d' ≡ d) × (select_direct key d ≡ ok c)) (λ _ d'. d' ≡ d)) _ _
        (Yields-caught _ _ _
          (record {
            at = λ w c e p. (
              (ReadOnly-query env (select_direct key)).same w ∙ e,
              (Yields-of_query env (select_direct key)).at w c e p,
            );
          })
          λ w x e p. (ReadOnly-query env (select_direct key)).same w ∙ e)
        λ r d1 h. go r d1 h (open_direct-Opened n d)
    where
      go :
          (r : Result Chat) (d1 : Db)
          → Either (λ c d'. (d' ≡ d) × (select_direct key d ≡ ok c)) (λ _ d'. d' ≡ d) r d1
          → Yields d (Opened actor peer key d) (open_direct env hash n actor peer key)
          → Yields d1
              (Opened actor peer key d)
              (after_lookup env hash actor peer key (open_direct env hash n actor peer key) r)
      go (ok c) d1 h again =
          subst
            (λ x.
              Yields x (Opened actor peer key d) (
                after_lookup env hash actor peer key (open_direct env hash n actor peer key)
                  (ok c)))
            (sym h.0)
            (after_lookup-Opened _ (ok c) d again
              (λ x q. subst (λ y. select_direct key d ≡ ok y) (cc) h.1))
      go (fail e) d1 h again =
          subst
            (λ x. Yields x (Opened actor peer key d) (
              after_lookup env hash actor peer key (open_direct env hash n actor peer key)
                (fail e)))
            (sym h) (after_lookup-Opened _ (fail e) d again (λ x q. absurd (cc)))

module _ (env : Env) (hash : Text → Text) (actor raw : Text) where
  create_direct-Yields :
      (d : Db)
      → Yields d
          (λ out d'.
            (key : Text) × (direct_key hash actor (trim_space raw) ≡ ok key)
            × Opened actor (trim_space raw) key d out d')
          (create_direct env hash actor raw)
  unfolding create_direct get_user
  create_direct-Yields d = Yields-ensure _ _ _ λ _. Yields-ensure _ _ _ λ _.
      Yields-ensure _ _ _ λ _. Yields-ensure _ _ _ λ _. Yields-query_or _ env _ _ λ u e.
        Yields-lift _ _ λ key k.
          Yields-map _ _ (open_direct-Opened env hash actor (trim_space raw) key 3 d)
            λ out d' o. (key, k, o)

  pub create_direct-opens :
      (w : World) (out : ChatDetail)
      → (create_direct env hash actor raw w).0 ≡ ok out
      → (key : Text) × (direct_key hash actor (trim_space raw) ≡ ok key)
        × Opened actor (trim_space raw) key w.db out (create_direct env hash actor raw w).1.db
  create_direct-opens w out e = (create_direct-Yields w.db).at w out refl e

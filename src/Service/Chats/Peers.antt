-- ===== src/Service/Chats/Peers.antt =====
-- chat_service.go, CreateDirect: the two users of a pair get one chat.
use gomsg.Prelude.{Text, true, false, [], ◌∷◌, ◌≡◌, arith, refl, text_gt}
use gomsg.Service.ChatParts.{direct_key, pair_of}

text_gt-or : (a b : Text) → text_gt a b ≡ false → text_gt b a ≡ false → a ≡ b
unfolding text_gt
text_gt-or [] [] g h = refl
text_gt-or [] (d ∷ b) g h = absurd (cc)
text_gt-or (c ∷ a) [] g h = absurd (cc)
text_gt-or (c ∷ a) (d ∷ b) g h = ground (arith, text_gt-or a b)

text_gt-not : (a b : Text) → text_gt a b ≡ true → text_gt b a ≡ false
unfolding text_gt
text_gt-not [] b g = absurd (cc)
text_gt-not (c ∷ a) [] g = refl
text_gt-not (c ∷ a) (d ∷ b) g = ground (arith, text_gt-not a b)

pair_of_comm : (a b : Text) → pair_of a b ≡ pair_of b a
unfolding pair_of
pair_of_comm a b = ground (arith, text_gt-or a b, text_gt-not a b)

-- The key of a direct chat is the same for both users, whoever opens it.
pub direct_key_comm : (hash : Text → Text) (a b : Text) → direct_key hash a b ≡ direct_key hash b a
unfolding direct_key
direct_key_comm hash a b = ground (arith, pair_of_comm a b)

-- ===== src/Examples/Chats.antt =====
-- Direct chats, groups and their lists.
use gomsg.Prelude.{
  ℕ, ℤ, pos, Text, false, none, some, List, [], ◌∷◌, ◌++◌, ◌≡◌, ◌≢◌, refl, ap, codes, take, length,
  arith, trim_space, text_eq, text_eq_refl,
}
use gomsg.Result.{ok}
use gomsg.Store.{Env, Db, World, world_of}
use gomsg.Service.ChatParts.{ChatDetail, ChatSummary, MemberDto, CreateGroupChatRequest, pair_of}
use gomsg.Service.Membership.{remove_member}
use gomsg.Service.Chats.{create_direct, create_group, list_mine, add_to_chat}
use gomsg.Service.Chats.Opening.{IsCalm, AreReady, create_direct-answers}
use gomsg.Examples.{alice, bob, calm, tables, start, numbered}

-- A stand-in for the hash
abbrev pub short : Text → Text
short t = take 64 t

abbrev opened : World
opened = (create_direct calm short alice bob start).1

abbrev direct_detail : ChatDetail
direct_detail = record {
  id = numbered 3;
  type = "direct";
  title = none;
  avatar_url = none;
  created_at = 3;
  updated_at = 3;
}

trimmed_bob : trim_space bob ≡ bob
unfolding trim_space
trimmed_bob = refl

-- Nothing fails, and every id that is drawn is the same.
abbrev still : Env
still = record { fault = λ _. none; clock = λ n. n; uuid = λ _. numbered 7 }

still-IsCalm : IsCalm still tables
unfolding gomsg.Uuid.uuid_match gomsg.Prelude.to_lower gomsg.Prelude.any_row gomsg.Prelude.text_eq
still-IsCalm = record {
  no_fault = λ _. refl;
  formed = λ _. refl;
  printed = λ _. refl;
  unused = λ _. refl;
}

ready : AreReady still short alice bob (short (pair_of alice bob)) tables
unfolding gomsg.Uuid.uuid_match gomsg.Prelude.any_row gomsg.Prelude.text_eq gomsg.Prelude.to_lower
ready = record {
  actor_id = refl;
  peer_id = refl;
  actor_there = refl;
  peer_there = refl;
  no_chat = refl;
}

differ : text_eq bob alice ≡ false
unfolding text_eq
differ = refl

not_alice : bob ≢ alice
not_alice e = absurd (ground (arith, differ, text_eq_refl alice, ap (λ t. text_eq t alice) e))

create_direct-answers_example :
    (out : ChatDetail) × ((create_direct still short alice bob start).0 ≡ ok out)
unfolding pair_of gomsg.Prelude.text_gt
create_direct-answers_example =
    create_direct-answers still short alice bob start still-IsCalm ready refl trimmed_bob not_alice

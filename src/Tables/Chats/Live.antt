-- ===== src/Tables/Chats/Live.antt =====
-- chat_repository.go: what GetDirectByKey finds, and that it is the only one where the keys hold.
use gomsg.Prelude.{
  Text, true, false, some, List, [], ◌∷◌, ◌≡◌, refl, ap, subst, ◌∙◌, inl, inr, arith, text_eq_refl,
  any_row, find_row, find_row-some, text_eq, text_eq_iff, Bool-cases, All, ◌↔◌, Option, none, ◌&&◌,
  not,
}
use gomsg.Result.{ok}
use gomsg.Domain.{Chat, ChatType}
use gomsg.Store.{Db}
use gomsg.Tables.Chats.Creation.{select_direct, is_live_direct, is_direct}
use gomsg.Tables.Chats.Keys.{HasDistinctChats, same_pair}

-- A live direct chat of a key
abbrev pub IsLiveDirect : Text → Chat → Type 0
IsLiveDirect key c = (c.type ≡ ChatType.direct) × (c.is_deleted ≡ false) × (c.direct_key ≡ some key)

pub is_live_direct_iff :
    (key : Text) (c : Chat) → (is_live_direct key c ≡ true) ↔ IsLiveDirect key c
is_live_direct_iff key c =
    (λ h. shown c.direct_key refl h, λ h. ground (arith, h.0, h.1, h.2, text_eq_refl key))
  where
    shown : (o : Option Text) → c.direct_key ≡ o → is_live_direct key c ≡ true → IsLiveDirect key c
    shown none e h = absurd (ground arith)
    shown (some k) e h =
        let k_eq : text_eq k key ≡ true = ground arith in
        (ground arith, ground arith, e ∙ ap some ((text_eq_iff k key).0 k_eq))

pub select_direct-IsLiveDirect :
    (key : Text) (d : Db) (c : Chat) → select_direct key d ≡ ok c → IsLiveDirect key c
unfolding select_direct
select_direct-IsLiveDirect key d c h =
    (is_live_direct_iff key c).0 (ground (arith, h, find_row-some (is_live_direct key) d.chats c))

-- Each live direct chat of the key is this one.
abbrev pub IsOnly : Text → Chat → List Chat → Type 0
IsOnly key c = All (λ x. IsLiveDirect key x → x ≡ c)

pub none-IsOnly :
    (key : Text) (c : Chat) (cs : List Chat)
    → any_row (is_live_direct key) cs ≡ false
    → IsOnly key c cs
unfolding any_row
none-IsOnly key c [] h = tt
none-IsOnly key c (x ∷ cs) h = (
  λ l. let k = (is_live_direct_iff key x).1 l in absurd (ground arith),
  none-IsOnly key c cs (ground arith),
)

pub found-IsOnly :
    (key : Text) (c : Chat) (cs : List Chat)
    → HasDistinctChats cs
    → find_row (is_live_direct key) cs ≡ some c
    → IsOnly key c cs
unfolding find_row
found-IsOnly key c [] s h = tt
found-IsOnly key c (x ∷ cs) s h = elim (Bool-cases (is_live_direct key x)) [
  | inl e ↦
      let l = (is_live_direct_iff key x).0 e in
      (λ k. ground (arith, e, h), none-IsOnly key c cs (clash l))
  | inr e ↦ (
    λ l. let k = (is_live_direct_iff key x).1 l in absurd (cc),
    found-IsOnly key c cs s.2 (ground (arith, e, h)),
  )
]
  where
    clash : IsLiveDirect key x → any_row (is_live_direct key) cs ≡ false
    clash l =
        subst (λ b. any_row (same_pair b (some key)) cs ≡ false) is_live
          (subst (λ o. any_row (same_pair (is_direct x.type && not x.is_deleted) o) cs ≡ false) l.2
            s.1)
      where
        is_live : is_direct x.type && not x.is_deleted ≡ true
        is_live = ground (arith, l.0, l.1)

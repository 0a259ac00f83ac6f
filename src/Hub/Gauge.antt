-- ===== src/Hub/Gauge.antt =====
-- hub.go and handler.go: the hubs that a run of connections reaches, and the gauge of active ones.
use gomsg.Prelude.{
  ℕ, suc, ◌+◌, Text, Bool, true, false, Option, some, List, [], ◌∷◌, ◌≡◌, refl, ap, subst, arith,
  ◌==◌, if◌then◌else◌, text_eq, text_eq_iff, any_row, delete_rows, length, All, Bool-cases, inl,
  inr,
}
use gomsg.Json.{Json}
use gomsg.Hub.{
  Hub, Entry, new_hub, has_ref, lookup_set, set_or_empty, set_of, put_set, delete_set, new_client,
  register, unregister, without_ref, is_nil, send_to_user, reply, write_next,
}
use gomsg.Hub.Sound.{IsSetOf, HasDistinctUsers}

-- What the goroutines of a process do to its hub, one after the other, as its lock orders them. A
-- connection registers once, when it is made, and unregisters once, when its readPump ends.
pub data Step : Hub → Hub → Type 0 where
  connect : (u : Text) (h : Hub) → Step h (register (new_client u h).0 u (new_client u h).1)
  disconnect :
      (r : ℕ) (u : Text) (h : Hub)
      → has_ref r (set_of u h.clients) ≡ true
      → Step h (unregister r u h)
  send : (u : Text) (p : Json) (h : Hub) → Step h (send_to_user u p h)
  answer : (r : ℕ) (outs : List (Option Json)) (h : Hub) → Step h (reply r outs h)
  write : (r : ℕ) (h : Hub) → Step h (write_next r h)

pub data Reach (met : Bool) : Hub → Type 0 where
  start : Reach met (new_hub met)
  later : {h k : Hub} → Reach met h → Step h k → Reach met k

-- The connections that the map holds.
abbrev pub connections : List Entry → ℕ
connections [] = 0
connections (e ∷ es) = length e.1 + connections es

pub connections-put_set :
    (u : Text) (s : List ℕ) (es : List Entry)
    → connections (put_set u s es) + length (set_of u es) ≡ connections es + length s
unfolding put_set lookup_set
connections-put_set u s [] = omega arith
connections-put_set u s (e ∷ es) = elim (Bool-cases (text_eq e.0 u)) [
  | inl k ↦ ground arith
  | inr k ↦ ground (arith, connections-put_set u s es)
]

connections-delete_absent :
    (u : Text) (es : List Entry) → All (λ x. text_eq x.0 u ≡ false) es → delete_set u es ≡ es
unfolding delete_rows
connections-delete_absent u [] a = refl
connections-delete_absent u (e ∷ es) a = ground (arith, a.0, connections-delete_absent u es a.1)

connections-delete_set :
    (u : Text) (es : List Entry)
    → HasDistinctUsers es
    → connections (delete_set u es) + length (set_of u es) ≡ connections es
unfolding delete_rows lookup_set
connections-delete_set u [] d = omega arith
connections-delete_set u (e ∷ es) d = elim (Bool-cases (text_eq e.0 u)) [
  | inl k ↦ ground (
    arith,
    connections-delete_absent u es
        (subst (λ v. All (λ x. text_eq x.0 v ≡ false) es) (ground (arith, text_eq_iff e.0 u)) d.0),
  )
  | inr k ↦ ground (arith, connections-delete_set u es d.1)
]

delete_absent : (r : ℕ) (s : List ℕ) → has_ref r s ≡ false → delete_rows (λ x. r == x) s ≡ s
unfolding any_row delete_rows
delete_absent r [] e = refl
delete_absent r (x ∷ s) e = ground (arith, delete_absent r s)

length-delete :
    (r : ℕ) (s : List ℕ)
    → IsSetOf s
    → has_ref r s ≡ true
    → suc (length (delete_rows (λ x. r == x) s)) ≡ length s
unfolding any_row delete_rows
length-delete r [] d e = absurd (cc)
length-delete r (x ∷ s) d e = elim (Bool-cases (r == x)) [
  | inl k ↦ ground (arith, delete_absent r s (subst (λ y. has_ref y s ≡ false) (ground arith) d.0))
  | inr k ↦ ground (arith, length-delete r s d.1)
]

length-nil : (s : List ℕ) → is_nil s ≡ true → length s ≡ 0
length-nil [] e = refl
length-nil (x ∷ s) e = absurd (cc)

pub connections-without_ref :
    (r : ℕ) (u : Text) (s : List ℕ) (es : List Entry)
    → lookup_set u es ≡ some s
    → IsSetOf s
    → HasDistinctUsers es
    → has_ref r s ≡ true
    → suc (connections (without_ref r u s es)) ≡ connections es
unfolding without_ref
connections-without_ref r u s es e d users k = go (is_nil left) refl
  where
    left : List ℕ
    left = delete_rows (λ x. r == x) s

    go :
        (b : Bool)
        → is_nil left ≡ b
        → suc (connections (if b then delete_set u es else put_set u left es)) ≡ connections es
    go true n = omega (
      arith,
      connections-delete_set u es users,
      ap (λ o. length (set_or_empty o)) e,
      length-delete r s d k,
      length-nil left n,
    )
    go false n = omega (
      arith,
      connections-put_set u left es,
      ap (λ o. length (set_or_empty o)) e,
      length-delete r s d k,
    )

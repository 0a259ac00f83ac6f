-- ===== src/Hub/Upkeep.antt =====
-- hub.go, Register and Unregister: they keep a hub sound.
use gomsg.Prelude.{
  ℕ, Text, Bool, true, false, Option, none, some, List, [], ◌∷◌, ◌≡◌, refl, ◌==◌, if◌then◌else◌,
  any_row, delete_rows, All,
}
use gomsg.Hub.{
  Client, Hub, Entry, dec, has_ref, lookup_set, set_or_empty, set_of, put_set, delete_set, add_ref,
  register, unregister, without_ref, is_nil,
}
use gomsg.Hub.Sound.{
  IsSetOf, owned, IsSoundEntry, HasDistinctUsers, IsSound, delete-IsSetOf, All-delete,
  lookup_set-entry, All-put_set, put_set-HasDistinctUsers, All-delete_set,
  delete_set-HasDistinctUsers,
}

-- Register
pub set_of_sound :
    (cs : List Client) (u : Text) (es : List Entry)
    → All (IsSoundEntry cs) es
    → IsSetOf (set_of u es) × All (λ r. owned u cs r ≡ true) (set_of u es)
set_of_sound cs u es a = go (lookup_set u es) refl
  where
    go :
        (o : Option (List ℕ))
        → lookup_set u es ≡ o
        → IsSetOf (set_or_empty o) × All (λ r. owned u cs r ≡ true) (set_or_empty o)
    go none e = (tt, tt)
    go (some s) e = let k = lookup_set-entry cs u es s a e in (k.distinct, k.owners)

has_ref-filled : (r : ℕ) (s : List ℕ) → has_ref r s ≡ true → is_nil s ≡ false
unfolding any_row
has_ref-filled r [] e = absurd (cc)
has_ref-filled r (x ∷ s) e = refl

add_ref_sound :
    (cs : List Client) (u : Text) (r : ℕ) (s : List ℕ)
    → owned u cs r ≡ true
    → IsSetOf s × All (λ q. owned u cs q ≡ true) s
    → IsSoundEntry cs (u, add_ref r s)
add_ref_sound cs u r s o k = go (has_ref r s) refl
  where
    go : (b : Bool) → has_ref r s ≡ b → IsSoundEntry cs (u, if b then s else r ∷ s)
    go true e = record { filled = has_ref-filled r s e; distinct = k.0; owners = k.1 }
    go false e = record { filled = refl; distinct = (e, k.0); owners = (o, k.1) }

pub register-IsSound :
    (r : ℕ) (u : Text) (h : Hub)
    → owned u h.channels r ≡ true
    → IsSound h
    → IsSound (register r u h)
unfolding register
register-IsSound r u h o s = record {
  users = put_set-HasDistinctUsers u _ h.clients s.users;
  entries =
      All-put_set (IsSoundEntry h.channels) u _ h.clients
        (add_ref_sound h.channels u r (set_of u h.clients) o
          (set_of_sound h.channels u h.clients s.entries))
        s.entries;
  refs = s.refs;
  fresh = s.fresh;
  bounded = s.bounded;
}

-- Unregister
without_ref_sound :
    (cs : List Client) (r : ℕ) (u : Text) (s : List ℕ) (es : List Entry)
    → IsSoundEntry cs (u, s)
    → HasDistinctUsers es
    → All (IsSoundEntry cs) es
    → HasDistinctUsers (without_ref r u s es) × All (IsSoundEntry cs) (without_ref r u s es)
unfolding without_ref
without_ref_sound cs r u s es k d a = go (is_nil left) refl
  where
    left : List ℕ
    left = delete_rows (λ x. r == x) s

    go :
        (b : Bool)
        → is_nil left ≡ b
        → HasDistinctUsers (if b then delete_set u es else put_set u left es)
          × All (IsSoundEntry cs) (if b then delete_set u es else put_set u left es)
    go true e = (delete_set-HasDistinctUsers u es d, All-delete_set (IsSoundEntry cs) u es a)
    go false e = (
      put_set-HasDistinctUsers u left es d,
      All-put_set (IsSoundEntry cs) u left es
          (record {
            filled = e;
            distinct = delete-IsSetOf r s k.distinct;
            owners = All-delete (λ q. owned u cs q ≡ true) r s k.owners;
          })
          a,
    )

pub unregister-IsSound : (r : ℕ) (u : Text) (h : Hub) → IsSound h → IsSound (unregister r u h)
unfolding unregister
unregister-IsSound r u h s = go (lookup_set u h.clients) refl
  where
    go :
        (o : Option (List ℕ))
        → lookup_set u h.clients ≡ o
        → IsSound (elim o [
          | none ↦ h
          | some t ↦ record h {
            clients = without_ref r u t h.clients;
            ws_active = if h.met then dec h.ws_active else h.ws_active;
          }
        ])
    go none e = s
    go (some t) e = record {
      users = k.0;
      entries = k.1;
      refs = s.refs;
      fresh = s.fresh;
      bounded = s.bounded;
    }
      where
        k :
            HasDistinctUsers (without_ref r u t h.clients)
            × All (IsSoundEntry h.channels) (without_ref r u t h.clients)
        k =
            without_ref_sound h.channels r u t h.clients
              (lookup_set-entry h.channels u h.clients t s.entries e) s.users s.entries

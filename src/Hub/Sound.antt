-- ===== src/Hub/Sound.antt =====
-- hub.go: what holds of a hub between two calls.
use gomsg.Prelude.{
  ℕ, ◌≤◌, Text, Bool, true, false, ◌&&◌, some, List, [], ◌∷◌, ◌≡◌, refl, subst, arith, ltb, ◌==◌,
  if◌then◌else◌, text_eq, text_eq_iff, any_row, delete_rows, length, All, Bool-cases, inl, inr,
}
use gomsg.Hub.{Client, Hub, Entry, has_ref, lookup_set, put_set, delete_set, is_nil}

-- No two channels have one ref.
abbrev pub HasDistinctRefs : List Client → Type 0
HasDistinctRefs [] = Unit
HasDistinctRefs (c ∷ cs) = All (λ x. (Client.ref c == Client.ref x) ≡ false) cs × HasDistinctRefs cs

-- The set names no client twice.
abbrev pub IsSetOf : List ℕ → Type 0
IsSetOf [] = Unit
IsSetOf (r ∷ rs) = (has_ref r rs ≡ false) × IsSetOf rs

-- The channel `r` is one of the user's.
abbrev pub owned : Text → List Client → ℕ → Bool
owned u cs r = any_row (λ c. (Client.ref c == r) && text_eq (Client.user_id c) u) cs

abbrev pub Fits : Client → Type 0
Fits c = length c.queue ≤ 256

-- An entry of the map: a set that is not empty, of clients of its user.
pub record IsSoundEntry (cs : List Client) (e : Entry) : Type 0 where
  pub filled : is_nil e.1 ≡ false
  pub distinct : IsSetOf e.1
  pub owners : All (λ r. owned e.0 cs r ≡ true) e.1

abbrev pub HasDistinctUsers : List Entry → Type 0
HasDistinctUsers [] = Unit
HasDistinctUsers (e ∷ es) = All (λ x. text_eq x.0 e.0 ≡ false) es × HasDistinctUsers es

pub record IsSound (h : Hub) : Type 0 where
  pub users : HasDistinctUsers h.clients
  pub entries : All (IsSoundEntry h.channels) h.clients
  pub refs : HasDistinctRefs h.channels
  pub fresh : All (λ c. ltb (Client.ref c) h.next_ref ≡ true) h.channels
  pub bounded : All Fits h.channels

pub All-has_ref : (P : ℕ → Type 0) (r : ℕ) (rs : List ℕ) → All P rs → has_ref r rs ≡ true → P r
unfolding any_row
All-has_ref P r [] a e = absurd (cc)
All-has_ref P r (x ∷ rs) a e = elim (Bool-cases (r == x)) [
  | inl k ↦ subst P (ground arith) a.0
  | inr k ↦ All-has_ref P r rs a.1 (ground arith)
]

-- Sets
has_ref-delete :
    (q r : ℕ) (s : List ℕ) → has_ref q s ≡ false → has_ref q (delete_rows (λ x. r == x) s) ≡ false
unfolding any_row delete_rows
has_ref-delete q r [] h = refl
has_ref-delete q r (x ∷ s) h = ground (arith, has_ref-delete q r s)

pub delete-IsSetOf : (r : ℕ) (s : List ℕ) → IsSetOf s → IsSetOf (delete_rows (λ x. r == x) s)
unfolding delete_rows
delete-IsSetOf r [] d = tt
delete-IsSetOf r (x ∷ s) d = go (r == x) (delete-IsSetOf r s d.1)
  where
    go :
        (b : Bool)
        → IsSetOf (delete_rows (λ y. r == y) s)
        → IsSetOf (if b then delete_rows (λ y. r == y) s else x ∷ delete_rows (λ y. r == y) s)
    go true k = k
    go false k = (has_ref-delete x r s d.0, k)

pub All-delete :
    (P : ℕ → Type 0) (r : ℕ) (s : List ℕ) → All P s → All P (delete_rows (λ x. r == x) s)
unfolding delete_rows
All-delete P r [] a = tt
All-delete P r (x ∷ s) a = go (r == x) (All-delete P r s a.1)
  where
    go :
        (b : Bool)
        → All P (delete_rows (λ y. r == y) s)
        → All P (if b then delete_rows (λ y. r == y) s else x ∷ delete_rows (λ y. r == y) s)
    go true k = k
    go false k = (a.0, k)

-- The map
pub lookup_set-entry :
    (cs : List Client) (u : Text) (es : List Entry) (s : List ℕ)
    → All (IsSoundEntry cs) es
    → lookup_set u es ≡ some s
    → IsSoundEntry cs (u, s)
unfolding lookup_set
lookup_set-entry cs u [] s a e = absurd (cc)
lookup_set-entry cs u ((v, t) ∷ es) s a e = elim (Bool-cases (text_eq v u)) [
  | inl k ↦ subst (IsSoundEntry cs) (ground (arith, text_eq_iff v u)) a.0
  | inr k ↦ lookup_set-entry cs u es s a.1 (ground arith)
]

pub All-put_set :
    (P : Entry → Type 0) (u : Text) (s : List ℕ) (es : List Entry)
    → P (u, s)
    → All P es
    → All P (put_set u s es)
unfolding put_set
All-put_set P u s [] p a = (p, tt)
All-put_set P u s ((v, t) ∷ es) p a = go (text_eq v u) refl (All-put_set P u s es p a.1)
  where
    go :
        (b : Bool)
        → text_eq v u ≡ b
        → All P (put_set u s es)
        → All P (if b then (v, s) ∷ es else (v, t) ∷ put_set u s es)
    go true e k = (subst (λ x. P (x, s)) (ground (arith, text_eq_iff v u)) p, a.1)
    go false e k = (a.0, k)

pub put_set-HasDistinctUsers :
    (u : Text) (s : List ℕ) (es : List Entry)
    → HasDistinctUsers es
    → HasDistinctUsers (put_set u s es)
unfolding put_set
put_set-HasDistinctUsers u s [] d = (tt, tt)
put_set-HasDistinctUsers u s ((v, t) ∷ es) d =
    go (text_eq v u) refl (put_set-HasDistinctUsers u s es d.1)
  where
    go :
        (b : Bool)
        → text_eq v u ≡ b
        → HasDistinctUsers (put_set u s es)
        → HasDistinctUsers (if b then (v, s) ∷ es else (v, t) ∷ put_set u s es)
    go true e k = (d.0, d.1)
    go false e k = (
      All-put_set (λ x. text_eq x.0 v ≡ false) u s es
          (ground (arith, text_eq_iff u v, text_eq_iff v u)) d.0,
      k,
    )

pub All-delete_set :
    (P : Entry → Type 0) (u : Text) (es : List Entry) → All P es → All P (delete_set u es)
unfolding delete_rows
All-delete_set P u [] a = tt
All-delete_set P u (e ∷ es) a = go (text_eq e.0 u) (All-delete_set P u es a.1)
  where
    go :
        (b : Bool)
        → All P (delete_set u es)
        → All P (if b then delete_set u es else e ∷ delete_set u es)
    go true k = k
    go false k = (a.0, k)

pub delete_set-HasDistinctUsers :
    (u : Text) (es : List Entry) → HasDistinctUsers es → HasDistinctUsers (delete_set u es)
unfolding delete_rows
delete_set-HasDistinctUsers u [] d = tt
delete_set-HasDistinctUsers u (e ∷ es) d = go (text_eq e.0 u) (delete_set-HasDistinctUsers u es d.1)
  where
    go :
        (b : Bool)
        → HasDistinctUsers (delete_set u es)
        → HasDistinctUsers (if b then delete_set u es else e ∷ delete_set u es)
    go true k = k
    go false k = (All-delete_set (λ x. text_eq x.0 e.0 ≡ false) u es d.0, k)

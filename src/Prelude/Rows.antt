-- ===== src/Prelude/Rows.antt =====
-- Laws of the row operations on tables, and of lower case.
use gomsg.Prelude.Tests.{if◌then◌else◌, Bool-cases}
use gomsg.Prelude.Lists.{take, find_row, any_row, rows_where, update_rows, delete_rows}
use gomsg.Prelude.GoText.{Text, to_lower, lower_rune}
use Prim.Native.Nat.{ℕ, zero, suc}
use mathlib.Core.Path.{◌≡◌, refl, ap₂, subst}
use mathlib.Core.Bool.{Bool, true, false, ◌&&◌, ◌||◌}
use mathlib.Core.Option.{Option, none, some}
use mathlib.Core.Option
use mathlib.Core.List.{List, [], ◌∷◌}
use mathlib.Core.Logic.{◌⊎◌, inl, inr}
use native.Mathlib.Omega.{arith}

-- What holds of each row.
abbrev pub All {ℓ κ} : {A : Type ℓ} → (A → Type κ) → List A → Type κ
All P [] = Unit
All P (x ∷ xs) = P x × All P xs

-- What holds of a row or of one behind it.
abbrev pub Any {ℓ} : {A : Type ℓ} → (A → Type 0) → List A → Type 0
Any P [] = ⊥
Any P (x ∷ xs) = P x ⊎ Any P xs

pub Any-map {ℓ} :
    {A : Type ℓ} (P Q : A → Type 0) → ((x : A) → P x → Q x) → (xs : List A) → Any P xs → Any Q xs
Any-map P Q f [] h = absurd h
Any-map P Q f (x ∷ xs) (inl h) = inl (f x h)
Any-map P Q f (x ∷ xs) (inr h) = inr (Any-map P Q f xs h)

lower_rune-lower_rune : (c : ℕ) → lower_rune (lower_rune c) ≡ lower_rune c
unfolding lower_rune
lower_rune-lower_rune c = ground arith

pub to_lower-to_lower : (t : Text) → to_lower (to_lower t) ≡ to_lower t
unfolding to_lower
to_lower-to_lower [] = refl
to_lower-to_lower (c ∷ t) = ap₂ ◌∷◌ (lower_rune-lower_rune c) (to_lower-to_lower t)

pub All-map {ℓ κ μ} :
    {A : Type ℓ} (P : A → Type κ) (Q : A → Type μ)
    → ((x : A) → P x → Q x)
    → (xs : List A) → All P xs
    → All Q xs
All-map P Q f [] a = tt
All-map P Q f (x ∷ xs) a = (f x a.0, All-map P Q f xs a.1)

pub All-zip {ℓ κ μ ν} :
    {A : Type ℓ} (P : A → Type κ) (Q : A → Type μ) (R : A → Type ν)
    → ((x : A) → P x → Q x → R x)
    → (xs : List A) → All P xs
    → All Q xs
    → All R xs
All-zip P Q R f [] a b = tt
All-zip P Q R f (x ∷ xs) a b = (f x a.0 b.0, All-zip P Q R f xs a.1 b.1)

module _ {ℓ} {A : Type ℓ} where
  abbrev pub updated : (A → Bool) → (A → A) → A → A
  updated q f x = if q x then f x else x

  -- An update that keeps the key leaves the look-up by that key in step.
  pub find_row-update_rows :
      (p q : A → Bool) (f : A → A)
      → ((x : A) → p (f x) ≡ p x)
      → (xs : List A) → find_row p (update_rows q f xs) ≡ Option.map (updated q f) (find_row p xs)
  unfolding find_row update_rows
  find_row-update_rows p q f h [] = refl
  find_row-update_rows p q f h (x ∷ xs) = ground (arith, h x, find_row-update_rows p q f h xs)

  pub All-update_rows {κ} :
      {P : A → Type κ} (q : A → Bool) (f : A → A)
      → ((x : A) → P x → P (f x))
      → (xs : List A) → All P xs
      → All P (update_rows q f xs)
  unfolding update_rows
  All-update_rows q f h [] a = a
  All-update_rows {P = P} q f h (x ∷ xs) a = (go (q x), All-update_rows q f h xs a.1)
    where
      go : (b : Bool) → P (if b then f x else x)
      go true = h x a.0
      go false = a.0

  pub All-updated {κ μ} :
      (P : A → Type κ) (Q : A → Type μ) (q : A → Bool) (f : A → A)
      → ((x : A) → P x → Q (updated q f x))
      → (xs : List A) → All P xs
      → All Q (update_rows q f xs)
  unfolding update_rows
  All-updated P Q q f h [] a = tt
  All-updated P Q q f h (x ∷ xs) a = (h x a.0, All-updated P Q q f h xs a.1)

  -- A row that a look-up finds passes the test and has what all rows have.
  pub find_row-some : (p : A → Bool) (xs : List A) (x : A) → find_row p xs ≡ some x → p x ≡ true
  unfolding find_row
  find_row-some p [] x h = absurd (cc)
  find_row-some p (y ∷ xs) x h = elim (Bool-cases (p y)) [
    | inl e ↦ ground arith
    | inr e ↦ find_row-some p xs x (ground arith)
  ]

  pub All-find_row {κ} :
      (P : A → Type κ) (p : A → Bool) (xs : List A) (x : A)
      → All P xs
      → find_row p xs ≡ some x
      → P x
  unfolding find_row
  All-find_row P p [] x a h = absurd (cc)
  All-find_row P p (y ∷ xs) x a h = elim (Bool-cases (p y)) [
    | inl e ↦ subst P (ground arith) a.0
    | inr e ↦ All-find_row P p xs x a.1 (ground arith)
  ]

  -- A narrower test finds the same row, where that row passes it.
  pub find_row-and :
      (p q : A → Bool) (xs : List A) (x : A)
      → find_row p xs ≡ some x
      → q x ≡ true
      → find_row (λ y. p y && q y) xs ≡ some x
  unfolding find_row
  find_row-and p q [] x h k = absurd (cc)
  find_row-and p q (y ∷ xs) x h k = ground (arith, find_row-and p q xs x)

  -- Two updates that never meet one row are one update.
  pub update_rows-update_rows :
      (p q : A → Bool) (f : A → A)
      → ((x : A) → q (f x) ≡ q x)
      → (xs : List A) → All (λ x. p x && q x ≡ false) xs
      → update_rows q f (update_rows p f xs) ≡ update_rows (λ x. p x || q x) f xs
  unfolding update_rows
  update_rows-update_rows p q f h [] a = refl
  update_rows-update_rows p q f h (x ∷ xs) a =
      ground (arith, h x, update_rows-update_rows p q f h xs, a.0)

  pub update_rows-cong :
      (p q : A → Bool) (f : A → A) (xs : List A)
      → All (λ x. p x ≡ q x) xs
      → update_rows p f xs ≡ update_rows q f xs
  unfolding update_rows
  update_rows-cong p q f [] a = refl
  update_rows-cong p q f (x ∷ xs) a = ground (arith, update_rows-cong p q f xs a.1, a.0)

-- An update that keeps what a test reads keeps whether a row passes it.
pub any_row-update_rows {ℓ} :
    {A : Type ℓ} (p q : A → Bool) (f : A → A)
    → ((x : A) → p (f x) ≡ p x)
    → (xs : List A) → any_row p (update_rows q f xs) ≡ any_row p xs
unfolding any_row update_rows
any_row-update_rows p q f h [] = refl
any_row-update_rows p q f h (x ∷ xs) = ground (arith, h x, any_row-update_rows p q f h xs)

-- Where a row passes the test, one is found; where none does, none is.
pub any_row-found {ℓ} :
    {A : Type ℓ} (p : A → Bool) (xs : List A)
    → any_row p xs ≡ true
    → (x : A) × (find_row p xs ≡ some x)
unfolding any_row find_row
any_row-found p [] h = absurd (cc)
any_row-found p (x ∷ xs) h = elim (Bool-cases (p x)) [
  | inl e ↦ (x, ground (arith, e))
  | inr e ↦ let (y, k) = any_row-found p xs (ground (arith, h, e)) in (y, ground (arith, e, k))
]

pub any_row-none {ℓ} :
    {A : Type ℓ} (p : A → Bool) (xs : List A) → any_row p xs ≡ false → find_row p xs ≡ none
unfolding any_row find_row
any_row-none p [] h = refl
any_row-none p (x ∷ xs) h = ground (arith, any_row-none p xs)

-- A deletion brings no row.
pub none-delete_rows {ℓ} :
    {A : Type ℓ} (p q : A → Bool) (xs : List A)
    → any_row p xs ≡ false
    → any_row p (delete_rows q xs) ≡ false
unfolding any_row delete_rows
none-delete_rows p q [] h = h
none-delete_rows p q (x ∷ xs) h = ground (arith, none-delete_rows p q xs)

pub All-rows_where {ℓ κ} :
    {A : Type ℓ} (P : A → Type κ) (q : A → Bool) (xs : List A)
    → All P xs
    → All (λ x. P x × (q x ≡ true)) (rows_where q xs)
unfolding rows_where
All-rows_where P q [] a = tt
All-rows_where P q (x ∷ xs) a = go (q x) refl (All-rows_where P q xs a.1)
  where
    go :
        (b : Bool)
        → q x ≡ b
        → All (λ y. P y × (q y ≡ true)) (rows_where q xs)
        → All (λ y. P y × (q y ≡ true)) (if b then x ∷ rows_where q xs else rows_where q xs)
    go true e k = ((a.0, e), k)
    go false e k = k

pub All-take {ℓ κ} :
    {A : Type ℓ} (P : A → Type κ) (n : ℕ) (xs : List A) → All P xs → All P (take n xs)
All-take P zero xs a = tt
All-take P (suc n) [] a = tt
All-take P (suc n) (x ∷ xs) a = (a.0, All-take P n xs a.1)

-- Two lists of one length whose entries are related, one by one.
abbrev pub Pairs {ℓ} : {A : Type ℓ} → (A → A → Type 0) → List A → List A → Type 0
Pairs R [] [] = Unit
Pairs R [] (y ∷ ys) = ⊥
Pairs R (x ∷ xs) [] = ⊥
Pairs R (x ∷ xs) (y ∷ ys) = R x y × Pairs R xs ys

pub Pairs-same {ℓ} :
    {A : Type ℓ} (R : A → A → Type 0) → ((x : A) → R x x) → (xs : List A) → Pairs R xs xs
Pairs-same R h [] = tt
Pairs-same R h (x ∷ xs) = (h x, Pairs-same R h xs)

pub Pairs-map {ℓ} :
    {A : Type ℓ} (R S : A → A → Type 0)
    → ((x y : A) → R x y → S x y)
    → (xs ys : List A) → Pairs R xs ys
    → Pairs S xs ys
Pairs-map R S h [] [] p = tt
Pairs-map R S h [] (y ∷ ys) p = absurd p
Pairs-map R S h (x ∷ xs) [] p = absurd p
Pairs-map R S h (x ∷ xs) (y ∷ ys) p = (h x y p.0, Pairs-map R S h xs ys p.1)

-- An update of the second list, where the first list's entries have `K`.
pub Pairs-update_rows {ℓ μ} :
    {A : Type ℓ} (K : A → Type μ) (R : A → A → Type 0) (q : A → Bool) (f : A → A)
    → ((x y : A) → K x → R x y → q y ≡ true → R x (f y))
    → (xs ys : List A) → All K xs
    → Pairs R xs ys
    → Pairs R xs (update_rows q f ys)
unfolding update_rows
Pairs-update_rows K R q f h [] [] a p = tt
Pairs-update_rows K R q f h [] (y ∷ ys) a p = absurd p
Pairs-update_rows K R q f h (x ∷ xs) [] a p = absurd p
Pairs-update_rows K R q f h (x ∷ xs) (y ∷ ys) a p =
    (go (q y) refl, Pairs-update_rows K R q f h xs ys a.1 p.1)
  where
    go : (b : Bool) → q y ≡ b → R x (if b then f y else y)
    go true e = h x y a.0 p.0 e
    go false e = p.0

-- ===== src/Prelude/Sort.antt =====
-- ORDER BY: a stable insertion sort by a Boolean "comes strictly after", and its laws.
use Prim.Native.Nat.{ℕ, ◌≤◌}
use mathlib.Core.Path.{◌≡◌, refl, sym, subst}
use mathlib.Core.Logic.{◌⊎◌, inl, inr}
use mathlib.Core.Bool.{Bool, true, false}
use mathlib.Core.List.{List, [], ◌∷◌, ◌++◌, Perm}
use mathlib.Core.List.Perm
use gomsg.Prelude.Tests.{if◌then◌else◌}
use gomsg.Prelude.Lists.{length, take, drop, take-drop, length-take, length-take-le}
use gomsg.Prelude.Rows.{All}

module _ {ℓ} {A : Type ℓ} where
  unfoldable pub insert_by : (A → A → Bool) → A → List A → List A
  insert_by after a [] = a ∷ []
  insert_by after a (x ∷ xs) =
      let rest = insert_by after a xs in if after a x then x ∷ rest else a ∷ x ∷ xs

  unfoldable pub sort_by : (A → A → Bool) → List A → List A
  unfolding insert_by
  sort_by after [] = []
  sort_by after (x ∷ xs) = insert_by after x (sort_by after xs)

  insert_by-perm :
      (after : A → A → Bool) (a : A) (xs : List A) → Perm (insert_by after a xs) (a ∷ xs)
  unfolding insert_by
  insert_by-perm after a [] = Perm.refl _
  insert_by-perm after a (x ∷ xs) = go (after a x) (insert_by-perm after a xs)
    where
      go :
          (b : Bool)
          → Perm (insert_by after a xs) (a ∷ xs)
          → Perm (if b then x ∷ insert_by after a xs else a ∷ x ∷ xs) (a ∷ x ∷ xs)
      go true r = Perm.trans (Perm.cons x r) (Perm.swap a x xs)
      go false r = Perm.refl _

  pub sort_by-perm : (after : A → A → Bool) (xs : List A) → Perm (sort_by after xs) xs
  unfolding sort_by
  sort_by-perm after [] = Perm.refl _
  sort_by-perm after (x ∷ xs) =
      Perm.trans (insert_by-perm after x (sort_by after xs)) (Perm.cons x (sort_by-perm after xs))

  pub All-insert_by {κ} :
      (P : A → Type κ) (after : A → A → Bool) (a : A) (xs : List A)
      → P a
      → All P xs
      → All P (insert_by after a xs)
  unfolding insert_by
  All-insert_by P after a [] p h = (p, tt)
  All-insert_by P after a (x ∷ xs) p h = go (after a x) (All-insert_by P after a xs p h.1)
    where
      go :
          (b : Bool)
          → All P (insert_by after a xs)
          → All P (if b then x ∷ insert_by after a xs else a ∷ x ∷ xs)
      go true r = (h.0, r)
      go false r = (p, h)

  pub All-sort_by {κ} :
      (P : A → Type κ) (after : A → A → Bool) (xs : List A) → All P xs → All P (sort_by after xs)
  unfolding sort_by
  All-sort_by P after [] h = tt
  All-sort_by P after (x ∷ xs) h =
      All-insert_by P after x (sort_by after xs) h.0 (All-sort_by P after xs h.1)

  -- Nothing comes after what stands behind it.
  abbrev pub InOrder : (A → A → Bool) → List A → Type 0
  InOrder after [] = Unit
  InOrder after (x ∷ xs) = All (λ y. after x y ≡ false) xs × InOrder after xs

  -- A page: the rows with what is before and behind them, in order, and all the rows of the table.
  pub record IsPageFrom (after : A → A → Bool) (offset limit : ℕ) (table rows : List A)
      : Type ℓ where
    pub before : List A
    pub behind : List A
    pub ordered : InOrder after (before ++ (rows ++ behind))
    pub all_rows : Perm (before ++ (rows ++ behind)) table
    pub skipped : (length before ≡ offset) ⊎ (rows ++ behind ≡ [])
    pub filled : (length rows ≡ limit) ⊎ (behind ≡ [])
    pub short : length rows ≤ limit

module _ {ℓ} {A : Type ℓ} (after : A → A → Bool)
    (asymm : (a b : A) → after a b ≡ true → after b a ≡ false)
    (le_trans : (a b c : A) → after a b ≡ false → after b c ≡ false → after a c ≡ false) where
  All-le :
      (a b : A) (xs : List A)
      → after a b ≡ false
      → All (λ y. after b y ≡ false) xs
      → All (λ y. after a y ≡ false) xs
  All-le a b [] h k = tt
  All-le a b (x ∷ xs) h k = (le_trans a b x h k.0, All-le a b xs h k.1)

  insert_by-InOrder :
      (a : A) (xs : List A) → InOrder after xs → InOrder after (insert_by after a xs)
  unfolding insert_by
  insert_by-InOrder a [] s = (tt, tt)
  insert_by-InOrder a (x ∷ xs) s = go (after a x) refl (insert_by-InOrder a xs s.1)
    where
      go :
          (b : Bool)
          → after a x ≡ b
          → InOrder after (insert_by after a xs)
          → InOrder after (if b then x ∷ insert_by after a xs else a ∷ x ∷ xs)
      go true e r = (All-insert_by (λ y. after x y ≡ false) after a xs (asymm a x e) s.0, r)
      go false e r = ((e, All-le a x xs e s.0), s)

  pub sort_by-InOrder : (xs : List A) → InOrder after (sort_by after xs)
  unfolding sort_by
  sort_by-InOrder [] = tt
  sort_by-InOrder (x ∷ xs) = insert_by-InOrder x (sort_by after xs) (sort_by-InOrder xs)

  -- LIMIT and OFFSET of the sorted rows are a page.
  pub take-IsPageFrom :
      (offset limit : ℕ) (table : List A)
      → IsPageFrom after offset limit table (take limit (drop offset (sort_by after table)))
  take-IsPageFrom offset limit table = record {
    before = take offset sorted;
    behind = drop limit (drop offset sorted);
    ordered = subst (InOrder after) (sym whole) (sort_by-InOrder table);
    all_rows = subst (λ xs. Perm xs table) (sym whole) (sort_by-perm after table);
    skipped = elim (length-take offset sorted) [
      | inl e ↦ inl e
      | inr e ↦ inr (subst (λ xs. xs ≡ []) (sym (take-drop limit (drop offset sorted))) e)
    ];
    filled = length-take limit (drop offset sorted);
    short = length-take-le limit (drop offset sorted);
  }
    where
      sorted : List A
      sorted = sort_by after table

      whole :
          take offset sorted ++ (take limit (drop offset sorted) ++ drop limit (drop offset sorted))
          ≡ sorted
      whole =
          subst (λ xs. take offset sorted ++ xs ≡ sorted)
            (sym (take-drop limit (drop offset sorted))) (take-drop offset sorted)

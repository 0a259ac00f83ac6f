-- ===== src/Tables/Messages/Order.antt =====
-- message_repository.go: the order of the listing, newest first by (created_at, id).
use mathlib.Core.List.{Perm}
use mathlib.Core.List.Perm
use gomsg.Prelude.{
  Text, Bool, true, false, List, [], ◌∷◌, ◌≡◌, refl, arith, text_gt, All, if◌then◌else◌,
}
use gomsg.Domain.{Message}
use gomsg.Tables.Messages.{older, insert_newest, newest_first}

-- No text is over itself, and "at most" is transitive.
text_gt_irrefl : (s : Text) → text_gt s s ≡ false
unfolding text_gt
text_gt_irrefl [] = refl
text_gt_irrefl (c ∷ s) = ground (arith, text_gt_irrefl s)

text_gt_asymm : (s t : Text) → text_gt s t ≡ true → text_gt t s ≡ false
unfolding text_gt
text_gt_asymm [] t h = absurd (cc)
text_gt_asymm (c ∷ s) [] h = refl
text_gt_asymm (c ∷ s) (d ∷ t) h = ground (arith, text_gt_asymm s t)

text_le_trans : (s t u : Text) → text_gt s t ≡ false → text_gt t u ≡ false → text_gt s u ≡ false
unfolding text_gt
text_le_trans [] t u h k = refl
text_le_trans (c ∷ s) [] u h k = absurd (cc)
text_le_trans (c ∷ s) (d ∷ t) [] h k = absurd (cc)
text_le_trans (c ∷ s) (d ∷ t) (e ∷ u) h k = ground (arith, text_le_trans s t u)

pub older_asymm : (a b : Message) → older a b ≡ true → older b a ≡ false
unfolding older
older_asymm a b h = ground (arith, text_gt_asymm b.id a.id)

-- If `a` is not older than `b` nor `b` than `c`, `a` is not older than `c`.
pub older_le_trans : (a b c : Message) → older a b ≡ false → older b c ≡ false → older a c ≡ false
unfolding older
older_le_trans a b c h k = ground (arith, text_le_trans c.id b.id a.id)

-- Nothing is older than what stands behind it.
abbrev pub IsNewestFirst : List Message → Type 0
IsNewestFirst [] = Unit
IsNewestFirst (m ∷ ms) = All (λ x. older m x ≡ false) ms × IsNewestFirst ms

All-insert_newest :
    (P : Message → Type 0) (m : Message) (ms : List Message)
    → P m
    → All P ms
    → All P (insert_newest m ms)
unfolding insert_newest
All-insert_newest P m [] p a = (p, tt)
All-insert_newest P m (x ∷ ms) p a = go (older m x) (All-insert_newest P m ms p a.1)
  where
    go :
        (b : Bool)
        → All P (insert_newest m ms)
        → All P (if b then x ∷ insert_newest m ms else m ∷ x ∷ ms)
    go true r = (a.0, r)
    go false r = (p, a)

pub All-not_older :
    (a m : Message) (ms : List Message)
    → older a m ≡ false
    → All (λ x. older m x ≡ false) ms
    → All (λ x. older a x ≡ false) ms
All-not_older a m [] h k = tt
All-not_older a m (x ∷ ms) h k = (older_le_trans a m x h k.0, All-not_older a m ms h k.1)

insert_newest-IsNewestFirst :
    (m : Message) (ms : List Message) → IsNewestFirst ms → IsNewestFirst (insert_newest m ms)
unfolding insert_newest
insert_newest-IsNewestFirst m [] s = (tt, tt)
insert_newest-IsNewestFirst m (x ∷ ms) s =
    go (older m x) refl (insert_newest-IsNewestFirst m ms s.1)
  where
    go :
        (b : Bool)
        → older m x ≡ b
        → IsNewestFirst (insert_newest m ms)
        → IsNewestFirst (if b then x ∷ insert_newest m ms else m ∷ x ∷ ms)
    go true e r = (All-insert_newest (λ y. older x y ≡ false) m ms (older_asymm m x e) s.0, r)
    go false e r = ((e, All-not_older m x ms e s.0), s)

pub newest_first-IsNewestFirst : (ms : List Message) → IsNewestFirst (newest_first ms)
unfolding newest_first
newest_first-IsNewestFirst [] = tt
newest_first-IsNewestFirst (m ∷ ms) =
    insert_newest-IsNewestFirst m (newest_first ms) (newest_first-IsNewestFirst ms)

insert_newest-perm : (m : Message) (ms : List Message) → Perm (insert_newest m ms) (m ∷ ms)
unfolding insert_newest
insert_newest-perm m [] = Perm.refl _
insert_newest-perm m (x ∷ ms) = go (older m x) (insert_newest-perm m ms)
  where
    go :
        (b : Bool)
        → Perm (insert_newest m ms) (m ∷ ms)
        → Perm (if b then x ∷ insert_newest m ms else m ∷ x ∷ ms) (m ∷ x ∷ ms)
    go true r = Perm.trans (Perm.cons x r) (Perm.swap m x ms)
    go false r = Perm.refl _

pub newest_first-perm : (ms : List Message) → Perm (newest_first ms) ms
unfolding newest_first
newest_first-perm [] = Perm.refl _
newest_first-perm (m ∷ ms) =
    Perm.trans (insert_newest-perm m (newest_first ms)) (Perm.cons m (newest_first-perm ms))

pub All-newest_first :
    (P : Message → Type 0) (ms : List Message) → All P ms → All P (newest_first ms)
unfolding newest_first
All-newest_first P [] a = tt
All-newest_first P (m ∷ ms) a =
    All-insert_newest P m (newest_first ms) a.0 (All-newest_first P ms a.1)

pub older_irrefl : (m : Message) → older m m ≡ false
unfolding older
older_irrefl m = ground (arith, text_gt_irrefl m.id)

text_le_antisymm : (s t : Text) → text_gt s t ≡ false → text_gt t s ≡ false → s ≡ t
unfolding text_gt
text_le_antisymm [] [] h k = refl
text_le_antisymm [] (d ∷ t) h k = absurd (cc)
text_le_antisymm (c ∷ s) [] h k = absurd (cc)
text_le_antisymm (c ∷ s) (d ∷ t) h k = ground (arith, text_le_antisymm s t)

-- Two messages of which neither is older are one.
pub older_antisymm : (a b : Message) → older a b ≡ false → older b a ≡ false → a.id ≡ b.id
unfolding older
older_antisymm a b h k = ground (arith, text_le_antisymm a.id b.id)

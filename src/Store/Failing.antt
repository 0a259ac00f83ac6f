-- ===== src/Store/Failing.antt =====
-- The failures of a call, and what a failing call may have changed.
use gomsg.Prelude.{subst, ◌⊎◌, inl, inr, ◌≡◌, refl, ◌∙◌}
use gomsg.Errors.{Error}
use gomsg.Result.{Result, ok, fail, map_error}
use gomsg.Store.{World, Go, on_error, ◌>>=◌, continue}
use gomsg.Store.Effects.{ReadOnly, IsAtomic, IsTotal}

-- Every failure of the call is one of `P`.
pub record OnlyFails {A : Type 0} (P : Error → Type 0) (m : Go A) : Type 0 where
  pub fails : (w : World) (e : Error) → (m w).0 ≡ fail e → P e

-- A call that fails has changed no table, but where the failure is one of `P`.
pub record IsAtomicBut {A : Type 0} (P : Error → Type 0) (m : Go A) : Type 0 where
  pub same : (w : World) (e : Error) → (m w).0 ≡ fail e → ((m w).1.db ≡ w.db) ⊎ P e

module _ {A B : Type 0} {P : Error → Type 0} where
  pub OnlyFails-then :
      (m : Go A) (f : A → Go B) → OnlyFails P m → ((a : A) → IsTotal (f a)) → OnlyFails P (m >>= f)
  unfolding ◌>>=◌
  OnlyFails-then m f hm hf = record { fails = λ w e p. go (m w).0 (m w).1 w e refl p }
    where
      go :
          (r : Result A) (v w : World) (e : Error) → (m w).0 ≡ r → (continue r f v).0 ≡ fail e → P e
      go (ok a) v w e q p = absurd ((hf a).never v e p)
      go (fail d) v w e q p = subst P (cc) (hm.fails w d q)

  pub IsAtomicBut-bind :
      (m : Go A) (f : A → Go B)
      → ReadOnly m
      → ((a : A) → IsAtomicBut P (f a))
      → IsAtomicBut P (m >>= f)
  unfolding ◌>>=◌
  IsAtomicBut-bind m f hm hf = record { same = λ w e p. go (m w).0 (m w).1 w e (hm.same w) p }
    where
      keep :
          (w v : World) (x : World) (e : Error)
          → v.db ≡ w.db
          → (x.db ≡ v.db) ⊎ P e
          → (x.db ≡ w.db) ⊎ P e
      keep w v x e h (inl q) = inl (q ∙ h)
      keep w v x e h (inr q) = inr q

      go :
          (r : Result A) (v w : World) (e : Error)
          → v.db ≡ w.db
          → (continue r f v).0 ≡ fail e
          → ((continue r f v).1.db ≡ w.db) ⊎ P e
      go (ok a) v w e h p = keep w v (f a v).1 e h ((hf a).same v e p)
      go (fail d) v w e h p = inl h

  -- The rest of a call after its write.
  pub IsAtomicBut-then :
      (m : Go A) (f : A → Go B)
      → IsAtomic m
      → ((a : A) → OnlyFails P (f a))
      → IsAtomicBut P (m >>= f)
  unfolding ◌>>=◌
  IsAtomicBut-then m f hm hf = record { same = λ w e p. go (m w).0 (m w).1 w e refl refl p }
    where
      go :
          (r : Result A) (v w : World) (e : Error)
          → (m w).0 ≡ r
          → (m w).1 ≡ v
          → (continue r f v).0 ≡ fail e
          → ((continue r f v).1.db ≡ w.db) ⊎ P e
      go (ok a) v w e q s p = inr ((hf a).fails v e p)
      go (fail d) v w e q s p = inl (rw (← s) (hm.same w d q))

pub OnlyFails-on_error :
    {A : Type 0} (f : Error → Error) (m : Go A)
    → OnlyFails (λ e. (c : Error) × (e ≡ f c)) (on_error f m)
unfolding on_error
OnlyFails-on_error {A} f m = record { fails = λ w e p. go (m w).0 e p }
  where
    go : (r : Result A) (e : Error) → map_error f r ≡ fail e → (c : Error) × (e ≡ f c)
    go (ok a) e p = absurd (cc)
    go (fail c) e p = (c, cc)

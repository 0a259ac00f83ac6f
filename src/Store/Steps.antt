-- ===== src/Store/Steps.antt =====
-- What a call yields, step by step.
use gomsg.Prelude.{subst, ◌≡◌, refl, sym, ◌∙◌, ap, Bool, true, false, ℕ}
use gomsg.Errors.{Error}
use gomsg.Result.{Result, ok}
use gomsg.Store.{Env, Db, World, Go, lift, query, on_error, ◌>>=◌, ensure, advance, draw}
use gomsg.Store.Effects.{ReadOnly-query, ReadOnly-on_error, ReadOnly-lift, ReadOnly-ensure}
use gomsg.Store.Outcome.{Yields, attempt-ok, Yields-on_error, Yields-read}

pub Yields-of_query :
    {A : Type 0} {d : Db} (env : Env) (q : Db → Result A)
    → Yields d (λ a _. q d ≡ ok a) (query env q)
unfolding query
Yields-of_query {A} {d} env q = record {
  at = λ w a e p.
      attempt-ok (λ x _. q d ≡ ok x) (env.fault w.tick) (advance w) (q w.db, advance w) a
        (λ h. ap q (sym e) ∙ h) p;
}

pub Yields-draw :
    {A : Type 0} {d : Db} (f : ℕ → Result A) → Yields d (λ a _. (n : ℕ) × (f n ≡ ok a)) (draw f)
unfolding draw
Yields-draw f = record { at = λ w a e p. (w.tick, p) }

module _ {A B : Type 0} {d : Db} {P : B → Db → Type 0} where
  pub Yields-query :
      (env : Env) (q : Db → Result A) (f : A → Go B)
      → ((a : A) → q d ≡ ok a → Yields d P (f a))
      → Yields d P (query env q >>= f)
  Yields-query env q f =
      Yields-read (λ a. q d ≡ ok a) (query env q) f (ReadOnly-query env q) (Yields-of_query env q)

  pub Yields-query_or :
      (g : Error → Error) (env : Env) (q : Db → Result A) (f : A → Go B)
      → ((a : A) → q d ≡ ok a → Yields d P (f a))
      → Yields d P (on_error g (query env q) >>= f)
  Yields-query_or g env q f =
      Yields-read (λ a. q d ≡ ok a) (on_error g (query env q)) f
        (ReadOnly-on_error g (query env q) (ReadOnly-query env q))
        (Yields-on_error g (query env q) (Yields-of_query env q))

  pub Yields-lift :
      (r : Result A) (f : A → Go B)
      → ((a : A) → r ≡ ok a → Yields d P (f a))
      → Yields d P (lift r >>= f)
  Yields-lift r f =
      Yields-read (λ a. r ≡ ok a) (lift r) f (ReadOnly-lift r)
        (record { at = λ w a e p. unfold lift in p })

ensure-true : (b : Bool) (e : Error) (w : World) (u : Unit {0}) → (ensure b e w).0 ≡ ok u → b ≡ true
unfolding ensure
ensure-true true e w u h = refl
ensure-true false e w u h = absurd (cc)

module _ {B : Type 0} {d : Db} {P : B → Db → Type 0} where
  pub Yields-ensure :
      (b : Bool) (e : Error) (f : Unit {0} → Go B)
      → (b ≡ true → Yields d P (f tt))
      → Yields d P (ensure b e >>= f)
  Yields-ensure b e f h =
      Yields-read (λ _. b ≡ true) (ensure b e) f (ReadOnly-ensure b e)
        (record { at = λ w u _ p. ensure-true b e w u p }) (λ _ t. h t)

pub Yields-ensure_last :
    {d : Db} {P : Unit {0} → Db → Type 0} (b : Bool) (e : Error)
    → (b ≡ true → P tt d)
    → Yields d P (ensure b e)
unfolding ensure
Yields-ensure_last {P = P} true e h = record { at = λ w u q _. subst (P tt) (sym q) (h refl) }
Yields-ensure_last false e h = record { at = λ w u q p. absurd (cc) }

-- ===== src/Store/Outcome.antt =====
-- What a call that returns has done to the tables: one rule for each way to build a call. The tables
-- before it are a fixed `d`, so that what the reads find of them stays at hand.
use gomsg.Prelude.{
  if◌then◌else◌, suc, subst, ◌≡◌, refl, sym, ◌∙◌, ap, Bool, true, false, Option, none, some, ℕ,
}
use gomsg.Errors.{Error}
use gomsg.Result.{Result, ok, fail, map_error}
use gomsg.Store.{
  Env, Db, World, Go, pure, exec, on_error, transaction, ◌>>=◌, commit, attempt, continue, advance,
  on_db, caught, raise,
}
use gomsg.Store.Keeps.{Keeps}
use gomsg.Store.Effects.{ReadOnly}

pub record Yields {A : Type 0} (d : Db) (P : A → Db → Type 0) (m : Go A) : Type 0 where
  pub at : (w : World) (a : A) → w.db ≡ d → (m w).0 ≡ ok a → P a (m w).1.db

-- What holds of a result by its two cases.
abbrev pub Either :
    {A : Type 0} → (A → Db → Type 0) → (Error → Db → Type 0) → Result A → Db → Type 0
Either Q R (ok a) d = Q a d
Either Q R (fail e) d = R e d

ok-injective : {A : Type 0} {a b : A} → ok a ≡ ok b → a ≡ b
ok-injective h = cc

-- Where an attempt returns, it went as if nothing had failed.
pub attempt-ok :
    {A : Type 0} (P : A → Db → Type 0) (o : Option Error) (w : World) (r : Result A × World) (a : A)
    → (r.0 ≡ ok a → P a r.1.db)
    → (attempt o w r).0 ≡ ok a
    → P a (attempt o w r).1.db
attempt-ok P none w r a h p = h p
attempt-ok P (some e) w r a h p = absurd (cc)

commit-ok :
    {A : Type 0} (P : A → Db → Type 0) (env : Env) (start : World) (r : Result A) (w : World)
    (a : A)
    → (r ≡ ok a → P a w.db)
    → (commit env start (r, w)).0 ≡ ok a
    → P a (commit env start (r, w)).1.db
unfolding commit
commit-ok P env start (ok b) w a h p =
    attempt-ok P (env.fault w.tick) (record w { db = start.db; tick = suc w.tick })
      (ok b, advance w) a h p
commit-ok P env start (fail e) w a h p = absurd (cc)

module _ {A : Type 0} {d : Db} {P : A → Db → Type 0} where
  pub Yields-pure : (a : A) → P a d → Yields d P (pure a)
  unfolding pure
  Yields-pure a h = record {
    at = λ w b e q. subst (P b) (sym e) (subst (λ x. P x d) (ok-injective q) h);
  }

  pub Yields-raise : (e : Error) → Yields d P (raise e)
  unfolding raise
  Yields-raise e = record { at = λ w a q p. absurd (cc) }

  -- What a call yields may be said in weaker words.
  pub Yields-map :
      (Q : A → Db → Type 0) (m : Go A)
      → Yields d Q m
      → ((a : A) (d' : Db) → Q a d' → P a d')
      → Yields d P m
  Yields-map Q m h f = record { at = λ w a e p. f a (m w).1.db (h.at w a e p) }

  -- A call that writes nothing, whatever it returns.
  pub Yields-unchanged : (m : Go A) → ReadOnly m → ((a : A) → P a d) → Yields d P m
  Yields-unchanged m ro h = record { at = λ w a e p. subst (P a) (sym (ro.same w ∙ e)) (h a) }

  pub Yields-if :
      (b : Bool) {m n : Go A} → Yields d P m → Yields d P n → Yields d P (if b then m else n)
  Yields-if true hm hn = hm
  Yields-if false hm hn = hn

  pub Yields-on_error : (f : Error → Error) (m : Go A) → Yields d P m → Yields d P (on_error f m)
  unfolding on_error
  Yields-on_error f m h = record { at = λ w a e p. h.at w a e (go (m w).0 a p) }
    where
      go : (r : Result A) (a : A) → map_error f r ≡ ok a → r ≡ ok a
      go (ok b) a p = p
      go (fail c) a p = cc

  pub Yields-transaction :
      (env : Env) (body : ℕ → Go A)
      → ((now : ℕ) → Yields d P (body now))
      → Yields d P (transaction env body)
  unfolding transaction
  Yields-transaction env body h = record {
    at = λ w a e p.
        attempt-ok P (env.fault w.tick) (advance w)
          (commit env w (body (env.clock w.tick) (advance w))) a
          (commit-ok P env w (body (env.clock w.tick) (advance w)).0
            (body (env.clock w.tick) (advance w)).1 a ((h (env.clock w.tick)).at (advance w) a e))
          p;
  }

  pub Yields-exec :
      (env : Env) (q : World → Result A × World)
      → ((w : World) (a : A) → w.db ≡ d → (q w).0 ≡ ok a → P a (q w).1.db)
      → Yields d P (exec env q)
  unfolding exec
  Yields-exec env q h = record {
    at = λ w a e p.
        attempt-ok P (env.fault w.tick) (advance w) (q (advance w)) a (h (advance w) a e) p;
  }

  pub Yields-exec-on_db :
      (env : Env) (q : World → Db → Result (A × Db))
      → ((w : World) (a : A) (d' : Db) → q w d ≡ ok (a, d') → P a d')
      → Yields d P (exec env (λ w. on_db (q w) w))
  Yields-exec-on_db env q h =
      Yields-exec env (λ w. on_db (q w) w) λ w a e p. go w a (q w w.db) (ap (q w) e) p
    where
      go :
          (w : World) (a : A) (r : Result (A × Db))
          → r ≡ q w d
          → (on_db (λ _. r) w).0 ≡ ok a
          → P a (on_db (λ _. r) w).1.db
      go w a (ok (b, d')) e p = h w a d' (cc)
      go w a (fail x) e p = absurd (cc)

-- A call whose error is a value: what it yields where it returns, and where it fails.
pub Yields-caught :
    {A : Type 0} {d : Db} (Q : A → Db → Type 0) (R : Error → Db → Type 0) (m : Go A)
    → Yields d Q m
    → ((w : World) (e : Error) → w.db ≡ d → (m w).0 ≡ fail e → R e (m w).1.db)
    → Yields d (Either Q R) (caught m)
unfolding caught
Yields-caught {A} {d} Q R m hq hr = record {
  at = λ w a e p. go w a e (m w).0 refl (ok-injective p);
}
  where
    go :
        (w : World) (a : Result A)
        → w.db ≡ d
        → (r : Result A) → (m w).0 ≡ r
        → (m w).0 ≡ a
        → Either Q R a (m w).1.db
    go w a e (ok b) h k = subst (λ x. Either Q R x (m w).1.db) (sym h ∙ k) (hq.at w b e h)
    go w a e (fail c) h k = subst (λ x. Either Q R x (m w).1.db) (sym h ∙ k) (hr w c e h)

-- What a call keeps, it yields.
pub Yields-Keeps :
    {A : Type 0} {d : Db} (P : Db → Type 0) (m : Go A) → Keeps P m → P d → Yields d (λ _ d'. P d') m
Yields-Keeps P m k h = record { at = λ w a e p. k.at w (subst P (sym e) h) }

continue-ok :
    {A B : Type 0} {P : B → Db → Type 0} (Q : A → Db → Type 0) (r : Result A) (v : World)
    (f : A → Go B) (b : B)
    → ((a : A) → r ≡ ok a → Q a v.db)
    → ((a : A) → Q a v.db → Yields v.db P (f a))
    → (continue r f v).0 ≡ ok b
    → P b (continue r f v).1.db
continue-ok Q (ok a) v f b hq hf p = (hf a (hq a refl)).at v b refl p
continue-ok Q (fail e) v f b hq hf p = absurd (cc)

module _ {A B : Type 0} {d : Db} {P : B → Db → Type 0} where
  -- A call whose effect is known, then the rest from the tables that it left.
  pub Yields-bind :
      (Q : A → Db → Type 0) (m : Go A) (f : A → Go B)
      → Yields d Q m
      → ((a : A) (d' : Db) → Q a d' → Yields d' P (f a))
      → Yields d P (m >>= f)
  unfolding ◌>>=◌
  Yields-bind Q m f hm hf = record {
    at = λ w b e p.
        continue-ok Q (m w).0 (m w).1 f b (λ a q. hm.at w a e q) (λ a h. hf a (m w).1.db h) p;
  }

  -- A call that only reads, and what its value tells of the tables.
  pub Yields-read :
      (R : A → Type 0) (m : Go A) (f : A → Go B)
      → ReadOnly m
      → Yields d (λ a _. R a) m
      → ((a : A) → R a → Yields d P (f a))
      → Yields d P (m >>= f)
  Yields-read R m f ro hm hf =
      Yields-bind (λ a d'. (d' ≡ d) × R a) m f
        (record { at = λ w a e p. (ro.same w ∙ e, hm.at w a e p) })
        (λ a d' h. subst (λ x. Yields x P (f a)) (sym h.0) (hf a h.1))

  -- Such a call where nothing of its value is used.
  pub Yields-skip :
      (m : Go A) (f : A → Go B) → ReadOnly m → ((a : A) → Yields d P (f a)) → Yields d P (m >>= f)
  Yields-skip m f ro hf =
      Yields-read (λ _. Unit {0}) m f ro (record { at = λ w a e p. tt }) (λ a _. hf a)

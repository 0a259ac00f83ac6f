-- ===== src/Store/Runs.antt =====
-- How calls run where nothing fails: one equation for each kind of step.
use gomsg.Prelude.{suc, Bool, true, false, Option, none, some, ◌≡◌, refl, ap, ◌∙◌}
use gomsg.Errors.{Error}
use gomsg.Result.{Result, ok, fail, map_error}
use gomsg.Store.{
  Env, Db, World, Go, lift, query, exec, on_error, caught, ◌>>=◌, ensure, attempt, continue,
  advance, on_db,
}

-- The clock has moved by one.
abbrev pub later : World → World
later w = record w { tick = suc w.tick }

module _ {B : Type 0} where
  pub run-ensure :
      (b : Bool) (e : Error) (f : Unit {0} → Go B) (w : World)
      → b ≡ true
      → (ensure b e >>= f) w ≡ f tt w
  unfolding ensure ◌>>=◌
  run-ensure true e f w h = refl
  run-ensure false e f w h = absurd (cc)

  pub run-lift :
      {A : Type 0} (r : Result A) (a : A) (f : A → Go B) (w : World)
      → r ≡ ok a
      → (lift r >>= f) w ≡ f a w
  unfolding lift ◌>>=◌
  run-lift r a f w h = ap (λ x. continue x f w) h

  -- A call whose result and last state are known, then the rest
  pub run-bind :
      {A : Type 0} (m : Go A) (f : A → Go B) (w : World) (a : A) (v : World)
      → m w ≡ (ok a, v)
      → (m >>= f) w ≡ f a v
  unfolding ◌>>=◌
  run-bind m f w a v h = ap (λ (x : Result _ × World). continue x.0 f x.1) h

module _ {A : Type 0} where
  attempt-none :
      (o : Option Error) (w : World) (r : Result A × World) → o ≡ none → attempt o w r ≡ r
  attempt-none none w r h = refl
  attempt-none (some e) w r h = absurd (cc)

  pub run-query :
      (env : Env) (q : Db → Result A) (w : World) (a : A)
      → env.fault w.tick ≡ none
      → q w.db ≡ ok a
      → query env q w ≡ (ok a, later w)
  unfolding query
  run-query env q w a f h =
      attempt-none (env.fault w.tick) (advance w) (q w.db, advance w) f ∙ ap (λ r. (r, later w)) h

  pub run-query_fail :
      (env : Env) (q : Db → Result A) (w : World) (e : Error)
      → env.fault w.tick ≡ none
      → q w.db ≡ fail e
      → query env q w ≡ (fail e, later w)
  unfolding query
  run-query_fail env q w e f h =
      attempt-none (env.fault w.tick) (advance w) (q w.db, advance w) f ∙ ap (λ r. (r, later w)) h

  pub run-on_error :
      (g : Error → Error) (m : Go A) (w v : World) (a : A)
      → m w ≡ (ok a, v)
      → on_error g m w ≡ (ok a, v)
  unfolding on_error
  run-on_error g m w v a h = ap (λ (x : Result A × World). (map_error g x.0, x.1)) h

  pub run-caught : (m : Go A) (w v : World) (r : Result A) → m w ≡ (r, v) → caught m w ≡ (ok r, v)
  unfolding caught
  run-caught m w v r h = ap (λ (x : Result A × World). (ok x.0, x.1)) h

  pub run-exec :
      (env : Env) (q : World → Db → Result (A × Db)) (w : World) (a : A) (d : Db)
      → env.fault w.tick ≡ none
      → q (later w) w.db ≡ ok (a, d)
      → exec env (λ v. on_db (q v) v) w ≡ (ok a, record (later w) { db = d })
  unfolding exec
  run-exec env q w a d f h =
      attempt-none (env.fault w.tick) (advance w) (on_db (q (advance w)) (advance w)) f
      ∙ go (q (advance w) w.db) h
    where
      go :
          (r : Result (A × Db))
          → r ≡ ok (a, d)
          → on_db (λ _. r) (advance w) ≡ (ok a, record (later w) { db = d })
      go (ok (b, c)) e = cc
      go (fail x) e = absurd (cc)

-- ===== src/Store/Keeps.antt =====
-- Invariants of the tables: one rule for each way to build a call, whether it returns or fails.
use gomsg.Prelude.{
  ◌≡◌, refl, sym, subst, Bool, true, false, Option, none, some, suc, ℕ, if◌then◌else◌,
}
use gomsg.Errors.{Error}
use gomsg.Result.{Result, ok, fail}
use gomsg.Store.{
  Env, Db, World, Go, exec, on_error, transaction, ◌>>=◌, commit, attempt, continue, advance, on_db,
  caught,
}
use gomsg.Store.Effects.{
  ReadOnly, ReadOnly-query, ReadOnly-ensure, ReadOnly-time_now, ReadOnly-new_uuid,
  ReadOnly-count_up, ReadOnly-pure, ReadOnly-raise, ReadOnly-lift,
}

pub record Keeps {A : Type 0} (P : Db → Type 0) (m : Go A) : Type 0 where
  pub at : (w : World) → P w.db → P (m w).1.db

attempt-Keeps :
    {A : Type 0} (P : Db → Type 0) (o : Option Error) (w : World) (r : Result A × World)
    → P w.db
    → P r.1.db
    → P (attempt o w r).1.db
attempt-Keeps P none w r p q = q
attempt-Keeps P (some e) w r p q = p

commit-Keeps :
    {A : Type 0} (P : Db → Type 0) (env : Env) (start : World) (r : Result A) (w : World)
    → P start.db
    → P w.db
    → P (commit env start (r, w)).1.db
unfolding commit
commit-Keeps P env start (ok a) w p q =
    attempt-Keeps P (env.fault w.tick) (record w { db = start.db; tick = suc w.tick })
      (ok a, advance w) p q
commit-Keeps P env start (fail e) w p q = p

module _ {A : Type 0} {P : Db → Type 0} where
  pub Keeps-ReadOnly : (m : Go A) → ReadOnly m → Keeps P m
  Keeps-ReadOnly m ro = record { at = λ w h. subst P (sym (ro.same w)) h }

  pub Keeps-on_error : (f : Error → Error) (m : Go A) → Keeps P m → Keeps P (on_error f m)
  unfolding on_error
  Keeps-on_error f m h = record { at = λ w p. h.at w p }

  pub Keeps-caught : (m : Go A) → Keeps P m → Keeps P (caught m)
  unfolding caught
  Keeps-caught m h = record { at = λ w p. h.at w p }

  pub Keeps-if : (b : Bool) (m n : Go A) → Keeps P m → Keeps P n → Keeps P (if b then m else n)
  Keeps-if true m n hm hn = hm
  Keeps-if false m n hm hn = hn

  pub Keeps-transaction :
      (env : Env) (body : ℕ → Go A)
      → ((now : ℕ) → Keeps P (body now))
      → Keeps P (transaction env body)
  unfolding transaction
  Keeps-transaction env body h = record {
    at = λ w p.
        attempt-Keeps P (env.fault w.tick) (advance w)
          (commit env w (body (env.clock w.tick) (advance w))) p
          (commit-Keeps P env w (body (env.clock w.tick) (advance w)).0
            (body (env.clock w.tick) (advance w)).1 p ((h (env.clock w.tick)).at (advance w) p));
  }

  pub Keeps-exec :
      (env : Env) (q : World → Result A × World)
      → ((w : World) → P w.db → P (q w).1.db)
      → Keeps P (exec env q)
  unfolding exec
  Keeps-exec env q h = record {
    at = λ w p. attempt-Keeps P (env.fault w.tick) (advance w) (q (advance w)) p (h (advance w) p);
  }

  pub Keeps-on_db :
      (env : Env) (q : World → Db → Result (A × Db))
      → ((w : World) (d : Db) (a : A) (d' : Db) → P d → q w d ≡ ok (a, d') → P d')
      → Keeps P (exec env (λ w. on_db (q w) w))
  Keeps-on_db env q h = Keeps-exec env (λ w. on_db (q w) w) λ w p. go w (q w w.db) refl p
    where
      go : (w : World) (r : Result (A × Db)) → q w w.db ≡ r → P w.db → P (on_db (λ _. r) w).1.db
      go w (ok (a, d')) e p = h w w.db a d' p e
      go w (fail x) e p = p

module _ {A B : Type 0} {P : Db → Type 0} where
  pub Keeps-bind :
      (m : Go A) (f : A → Go B) → Keeps P m → ((a : A) → Keeps P (f a)) → Keeps P (m >>= f)
  unfolding ◌>>=◌
  Keeps-bind m f hm hf = record { at = λ w p. go (m w).0 (m w).1 (hm.at w p) }
    where
      go : (r : Result A) (v : World) → P v.db → P (continue r f v).1.db
      go (ok a) v p = (hf a).at v p
      go (fail e) v p = p

  -- The one write of a call stands between steps that write nothing.
  pub Keeps-read :
      (m : Go A) (f : A → Go B) → ReadOnly m → ((a : A) → Keeps P (f a)) → Keeps P (m >>= f)
  Keeps-read m f hm hf = Keeps-bind m f (Keeps-ReadOnly m hm) hf

  pub Keeps-write :
      (m : Go A) (f : A → Go B) → Keeps P m → ((a : A) → ReadOnly (f a)) → Keeps P (m >>= f)
  Keeps-write m f hm hf = Keeps-bind m f hm (λ a. Keeps-ReadOnly (f a) (hf a))

-- The rules for the steps of a call with one write.
pub ruleset write_rules = (Keeps-on_error, Keeps-read, Keeps-write, Keeps-transaction)

-- The rules but for the writes.
pub ruleset keeps_rules = (
  Keeps-caught, Keeps-on_error, Keeps-bind, Keeps-transaction, Keeps-ReadOnly, ReadOnly-query,
  ReadOnly-ensure, ReadOnly-time_now, ReadOnly-new_uuid, ReadOnly-count_up, ReadOnly-pure,
  ReadOnly-raise, ReadOnly-lift,
)

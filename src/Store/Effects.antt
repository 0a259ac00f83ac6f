-- ===== src/Store/Effects.antt =====
-- How calls act on the tables, one rule for each way to build a call: a call that writes nothing, one
-- that writes nothing where it fails, and one that cannot fail.
use gomsg.Prelude.{
  if◌then◌else◌, ◌≡◌, ◌≢◌, refl, ◌∙◌, Bool, true, false, Option, none, some, ℕ, List,
}
use gomsg.Errors.{Error}
use gomsg.Result.{Result, ok, fail, map_error}
use gomsg.Store.{
  Env, Db, World, Counters, Go, pure, raise, lift, query, on_error, transaction, ◌>>=◌, ensure,
  time_now, new_uuid, draw, count_up, commit, caught, redis_do, RedisKey, exec, on_db, attempt,
  continue, advance,
}

-- The tables are as they were, whether the call returns or fails.
pub record ReadOnly {A : Type 0} (m : Go A) : Type 0 where
  pub same : (w : World) → (m w).1.db ≡ w.db

-- A call that fails has changed no table.
pub record IsAtomic {A : Type 0} (m : Go A) : Type 0 where
  pub same : (w : World) (e : Error) → (m w).0 ≡ fail e → (m w).1.db ≡ w.db

pub record IsTotal {A : Type 0} (m : Go A) : Type 0 where
  pub never : (w : World) (e : Error) → (m w).0 ≡ fail e → ⊥

pub ReadOnly-ensure : (b : Bool) (e : Error) → ReadOnly (ensure b e)
unfolding ensure
ReadOnly-ensure true e = record { same = λ w. refl }
ReadOnly-ensure false e = record { same = λ w. refl }

pub ReadOnly-time_now : (env : Env) → ReadOnly (time_now env)
unfolding time_now
ReadOnly-time_now env = record { same = λ w. refl }

pub ReadOnly-new_uuid : (env : Env) → ReadOnly (new_uuid env)
unfolding new_uuid
ReadOnly-new_uuid env = record { same = λ w. refl }

pub ReadOnly-draw : {A : Type 0} (f : ℕ → Result A) → ReadOnly (draw f)
unfolding draw
ReadOnly-draw f = record { same = λ w. refl }

pub ReadOnly-count_up : (b : Bool) (f : Counters → Counters) → ReadOnly (count_up b f)
unfolding count_up
ReadOnly-count_up true f = record { same = λ w. refl }
ReadOnly-count_up false f = record { same = λ w. refl }

pub IsTotal-count_up : (b : Bool) (f : Counters → Counters) → IsTotal (count_up b f)
unfolding count_up
IsTotal-count_up b f = record { never = λ w e h. cc }

module _ {A : Type 0} where
  pub ReadOnly-pure : (a : A) → ReadOnly (pure a)
  unfolding pure
  ReadOnly-pure a = record { same = λ w. refl }

  pub IsTotal-pure : (a : A) → IsTotal (pure a)
  unfolding pure
  IsTotal-pure a = record { never = λ w e h. cc }

  pub ReadOnly-raise : (e : Error) → ReadOnly (raise {A = A} e)
  unfolding raise
  ReadOnly-raise e = record { same = λ w. refl }

  pub ReadOnly-lift : (r : Result A) → ReadOnly (lift r)
  unfolding lift
  ReadOnly-lift r = record { same = λ w. refl }

  pub ReadOnly-if :
      (b : Bool) {m n : Go A} → ReadOnly m → ReadOnly n → ReadOnly (if b then m else n)
  ReadOnly-if true hm hn = hm
  ReadOnly-if false hm hn = hn

  attempt-db :
      (o : Option Error) (w v : World) (r : Result A)
      → v.db ≡ w.db
      → (attempt o w (r, v)).1.db ≡ w.db
  attempt-db none w v r h = h
  attempt-db (some e) w v r h = refl

  pub ReadOnly-query : (env : Env) (q : Db → Result A) → ReadOnly (query env q)
  unfolding query
  ReadOnly-query env q = record {
    same = λ w. attempt-db (env.fault w.tick) (advance w) (advance w) (q w.db) refl;
  }

  pub ReadOnly-on_error : (f : Error → Error) (m : Go A) → ReadOnly m → ReadOnly (on_error f m)
  unfolding on_error
  ReadOnly-on_error f m h = record { same = λ w. h.same w }

  pub ReadOnly-redis_do :
      (env : Env) (f : ℕ → List RedisKey → A × List RedisKey) → ReadOnly (redis_do env f)
  unfolding redis_do
  ReadOnly-redis_do env f = record {
    same =
        λ w. attempt-db (env.fault w.tick) (advance w) _ (ok (f (env.clock w.tick) w.redis).0) refl;
  }

  pub ReadOnly-caught : (m : Go A) → ReadOnly m → ReadOnly (caught m)
  unfolding caught
  ReadOnly-caught m h = record { same = λ w. h.same w }

  pub IsAtomic-ReadOnly : (m : Go A) → ReadOnly m → IsAtomic m
  IsAtomic-ReadOnly m h = record { same = λ w e p. h.same w }

  map_error-fail :
      (f : Error → Error) (r : Result A) (e : Error)
      → map_error f r ≡ fail e
      → (d : Error) × (r ≡ fail d)
  map_error-fail f (ok a) e h = absurd (cc)
  map_error-fail f (fail d) e h = (d, refl)

  pub IsAtomic-on_error : (f : Error → Error) (m : Go A) → IsAtomic m → IsAtomic (on_error f m)
  unfolding on_error
  IsAtomic-on_error f m h = record {
    same = λ w e p. let (d, q) = map_error-fail f (m w).0 e p in h.same w d q;
  }

  commit-db :
      (env : Env) (start : World) (r : Result A) (w : World) (e : Error)
      → (commit env start (r, w)).0 ≡ fail e
      → (commit env start (r, w)).1.db ≡ start.db
  unfolding commit
  commit-db env start (ok a) w e p = go (env.fault w.tick) p
    where
      go :
          (o : Option Error)
          → (attempt o
              (record w { db = start.db; tick = Prim.Native.Nat.suc w.tick })
              (ok a, advance w)).0
            ≡ fail e
          → (attempt o
              (record w { db = start.db; tick = Prim.Native.Nat.suc w.tick })
              (ok a, advance w)).1.db
            ≡ start.db
      go none q = absurd (cc)
      go (some d) q = refl
  commit-db env start (fail d) w e p = refl

  -- A transaction that reports an error has changed no table, whatever its body wrote.
  pub IsAtomic-transaction : (env : Env) (body : ℕ → Go A) → IsAtomic (transaction env body)
  unfolding transaction
  IsAtomic-transaction env body = record { same = λ w e p. go w e (env.fault w.tick) p }
    where
      go :
          (w : World) (e : Error) (o : Option Error)
          → (attempt o (advance w) (commit env w (body (env.clock w.tick) (advance w)))).0 ≡ fail e
          → (attempt o (advance w) (commit env w (body (env.clock w.tick) (advance w)))).1.db ≡ w.db
      go w e none p =
          commit-db env w (body (env.clock w.tick) (advance w)).0
            (body (env.clock w.tick) (advance w)).1 e p
      go w e (some d) p = refl

-- A statement that fails has changed no table.
pub IsAtomic-on_db :
    {A : Type 0} (env : Env) (q : World → Db → Result (A × Db))
    → IsAtomic (exec env (λ w. on_db (q w) w))
unfolding exec
IsAtomic-on_db {A} env q = record {
  same = λ w e p. go w e (env.fault w.tick) (q (advance w) w.db) p;
}
  where
    go :
        (w : World) (e : Error) (o : Option Error) (r : Result (A × Db))
        → (attempt o (advance w) (on_db (λ _. r) (advance w))).0 ≡ fail e
        → (attempt o (advance w) (on_db (λ _. r) (advance w))).1.db ≡ w.db
    go w e none (ok (a, d)) p = absurd (cc)
    go w e none (fail x) p = refl
    go w e (some x) r p = refl

module _ {A B : Type 0} where
  pub ReadOnly-bind :
      (m : Go A) (f : A → Go B) → ReadOnly m → ((a : A) → ReadOnly (f a)) → ReadOnly (m >>= f)
  unfolding ◌>>=◌
  ReadOnly-bind m f hm hf = record { same = λ w. go (m w).0 (m w).1 ∙ hm.same w }
    where
      go : (r : Result A) (v : World) → (continue r f v).1.db ≡ v.db
      go (ok a) v = (hf a).same v
      go (fail e) v = refl

  -- A call that only reads, then one that writes nothing where it fails.
  pub IsAtomic-bind :
      (m : Go A) (f : A → Go B) → ReadOnly m → ((a : A) → IsAtomic (f a)) → IsAtomic (m >>= f)
  unfolding ◌>>=◌
  IsAtomic-bind m f hm hf = record { same = λ w e p. go (m w).0 (m w).1 e p ∙ hm.same w }
    where
      go :
          (r : Result A) (v : World) (e : Error)
          → (continue r f v).0 ≡ fail e
          → (continue r f v).1.db ≡ v.db
      go (ok a) v e p = (hf a).same v e p
      go (fail d) v e p = refl

  -- A call that writes nothing where it fails, then one that cannot fail.
  pub IsAtomic-then :
      (m : Go A) (f : A → Go B) → IsAtomic m → ((a : A) → IsTotal (f a)) → IsAtomic (m >>= f)
  unfolding ◌>>=◌
  IsAtomic-then m f hm hf = record { same = λ w e p. go (m w).0 (m w).1 w e refl refl p }
    where
      go :
          (r : Result A) (v w : World) (e : Error)
          → (m w).0 ≡ r
          → (m w).1 ≡ v
          → (continue r f v).0 ≡ fail e
          → (continue r f v).1.db ≡ w.db
      go (ok a) v w e q s p = absurd ((hf a).never v e p)
      go (fail d) v w e q s p = rw (← s) (hm.same w d q)

  pub IsTotal-bind :
      (m : Go A) (f : A → Go B) → IsTotal m → ((a : A) → IsTotal (f a)) → IsTotal (m >>= f)
  unfolding ◌>>=◌
  IsTotal-bind m f hm hf = record { never = λ w e p. go (m w).0 (m w).1 w e refl p }
    where
      go : (r : Result A) (v w : World) (e : Error) → (m w).0 ≡ r → (continue r f v).0 ≡ fail e → ⊥
      go (ok a) v w e q p = (hf a).never v e p
      go (fail d) v w e q p = hm.never w d q

-- A call that only reads, then one that changes the tables: the first has returned.
pub read-returns :
    {A B : Type 0} (m : Go A) (f : A → Go B) (w : World)
    → ReadOnly m
    → ((m >>= f) w).1.db ≢ w.db
    → (a : A) × ((m w).0 ≡ ok a)
unfolding ◌>>=◌
read-returns {A} m f w ro = go (m w).0 (m w).1 refl (ro.same w)
  where
    go :
        (r : Result A) (v : World)
        → (m w).0 ≡ r
        → v.db ≡ w.db
        → (continue r f v).1.db ≢ w.db
        → (a : A) × ((m w).0 ≡ ok a)
    go (ok a) v e q n = (a, e)
    go (fail x) v e q n = absurd (n q)

pub ruleset reads = (
  ReadOnly-ensure, ReadOnly-time_now, ReadOnly-new_uuid, ReadOnly-draw, ReadOnly-count_up,
  ReadOnly-pure, ReadOnly-raise, ReadOnly-lift, ReadOnly-query, ReadOnly-on_error, ReadOnly-bind,
  ReadOnly-caught, ReadOnly-redis_do,
)

pub ruleset totals = (IsTotal-count_up, IsTotal-pure, IsTotal-bind)

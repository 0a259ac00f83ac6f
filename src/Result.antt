-- ===== src/Result.antt =====
-- A Go call that returns `(T, error)`.
use gomsg.Prelude.{Bool, true, false, Option, none, some}
use gomsg.Errors.{Error}

pub data Result (A : Type 0) : Type 0 where
  ok : A → Result A
  fail : Error → Result A

abbrev pub map_error : {A : Type 0} → (Error → Error) → Result A → Result A
map_error f (ok a) = ok a
map_error f (fail e) = fail (f e)

abbrev pub or_error : {A : Type 0} → Option A → Error → Result A
or_error none e = fail e
or_error (some a) e = ok a

infixl 10 ◌>>=◌ ◌>>◌
abbrev pub ◌>>=◌ : {A B : Type 0} → Result A → (A → Result B) → Result B
ok a >>= f = f a
fail e >>= f = fail e

abbrev pub ◌>>◌ : {B : Type 0} → Result (Unit {0}) → Result B → Result B
m >> n = m >>= λ _. n

-- if !cond { return err }
abbrev pub require : Bool → Error → Result (Unit {0})
require true e = ok tt
require false e = fail e

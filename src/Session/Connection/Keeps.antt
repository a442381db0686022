-- ===== src/Session/Connection/Keeps.antt =====
-- server/include/tds/server/client.hpp: what a member function leaves true, one rule for each way to
-- build one.
use tin_dox.Prelude.{Bool, true, false, Option, none, some, ok, err, if◌then◌else◌}
use tin_dox.Protocol.Error.{Error, Outcome}
use tin_dox.Session.Connection.{
  Client, Call, return, done, throw, world, self, expect, proceed, ◌>>=◌,
}
use tin_dox.Session.State.{World}

-- The call keeps `P`, whether it ends or throws.
pub record Keeps {Disk A : Type 0} (P : World Disk → Client → Type 0) (m : Call Disk A)
    : Type 0 where
  pub kept : (w : World Disk) (c : Client) → P w c → P (m w c).0 (m w c).1

module _ {Disk : Type 0} {P : World Disk → Client → Type 0} where
  module _ {A : Type 0} where
    pub Keeps-return : (a : A) → Keeps P (return a)
    unfolding return
    Keeps-return a = record { kept = λ w c h. h }

    pub Keeps-throw : (e : Error) → Keeps P (throw {A = A} e)
    unfolding throw
    Keeps-throw e = record { kept = λ w c h. h }

    pub Keeps-expect : (o : Option A) → Keeps P (expect o)
    unfolding expect
    Keeps-expect none = record { kept = λ w c h. h }
    Keeps-expect (some a) = record { kept = λ w c h. h }

    pub Keeps-if :
        (test : Bool) (m n : Call Disk A) → Keeps P m → Keeps P n → Keeps P (if test then m else n)
    Keeps-if true m n first second = first
    Keeps-if false m n first second = second

  pub Keeps-done : Keeps P done
  unfolding done
  Keeps-done = record { kept = λ w c h. h }

  pub Keeps-world : Keeps P world
  unfolding world
  Keeps-world = record { kept = λ w c h. h }

  pub Keeps-self : Keeps P self
  unfolding self
  Keeps-self = record { kept = λ w c h. h }

  after-Keeps :
      {A B : Type 0} (r : World Disk × Client × Outcome A) (f : A → Call Disk B)
      → P r.0 r.1
      → ((a : A) → Keeps P (f a))
      → P (proceed r f).0 (proceed r f).1
  after-Keeps (w, c, ok a) f h k = (k a).kept w c h
  after-Keeps (w, c, err e) f h k = h

  pub Keeps-bind :
      {A B : Type 0} (m : Call Disk A) (f : A → Call Disk B)
      → Keeps P m
      → ((a : A) → Keeps P (f a))
      → Keeps P (m >>= f)
  unfolding ◌>>=◌
  Keeps-bind m f h k = record { kept = λ w c p. after-Keeps (m w c) f (h.kept w c p) k }

pub ruleset keeps_rules = (
  Keeps-return, Keeps-throw, Keeps-expect, Keeps-if, Keeps-done, Keeps-world, Keeps-self,
  Keeps-bind,
)

-- ===== src/Exec/Calls.antt =====
-- Rules for calls whose worlds a proof follows, where an invariant holds after every raise.
use fpl_data_relay.Prelude.{◌≡◌, refl}
use fpl_data_relay.Result.{Result, ok, err}
use fpl_data_relay.Exec.{
  Exec, return, lift, proceed, ◌>>=◌, Keeps, Lands, Leads, Leads-bind, Leads-keep,
}

module _ {S : Type 0} (P : S → Type 0) where
  pub Keeps-return : {A : Type 0} (a : A) → Keeps P (return a)
  Keeps-return a s p = p

  -- A lifted result ends in an error or hands its value on, with the equation.
  pub Leads-lift :
      {A B : Type 0} (R : B → S → Type 0) (r : Result A) (rest : A → Exec S B)
      → ((a : A) → r ≡ ok a → Leads P P R (rest a))
      → Leads P P R (lift r >>= rest)
  Leads-lift R (err e) rest k s p = p
  Leads-lift R (ok a) rest k s p = k a refl s p

  pub Leads-after :
      {A B : Type 0} (R : B → S → Type 0) (m : Exec S A) (rest : A → Exec S B)
      → Keeps P m
      → ((a : A) → Leads P P R (rest a))
      → Leads P P R (m >>= rest)
  Leads-after R m rest k l = Leads-bind P P (λ a. P) R m rest (Leads-keep P P m (λ s p. p) k) l

  -- The same from one world: a call that returns hands on its equation.
  pub Lands-called :
      {A B : Type 0} (R : B → S → Type 0) (m : Exec S A) (rest : A → Exec S B) (s : S)
      → Keeps P m
      → P s
      → ((a : A) (t : S) → P t → m s ≡ (ok a, t) → Lands P R (rest a t))
      → Lands P R ((m >>= rest) s)
  Lands-called {A} {B} R m rest s k p l = after (m s).0 (m s).1 refl (k s p)
    where
      after : (r : Result A) (t : S) → m s ≡ (r, t) → P t → Lands P R (proceed r rest t)
      after (err e) t h q = q
      after (ok a) t h q = l a t q h

  pub Lands-lift :
      {A B : Type 0} (R : B → S → Type 0) (r : Result A) (rest : A → Exec S B) (s : S)
      → P s
      → ((a : A) → r ≡ ok a → Lands P R (rest a s))
      → Lands P R ((lift r >>= rest) s)
  Lands-lift R (err e) rest s p k = p
  Lands-lift R (ok a) rest s p k = k a refl

-- ===== src/Exec.antt =====
-- Methods that act on the world and may raise. What was done before a raise stays done, so the
-- world comes back beside an error too. `async` methods run to their end: waits are not modelled.
pub mod Calls
use fpl_data_relay.Prelude.{◌≡◌, refl, ap, ◌∙◌, Bool, true, false, List, [], ◌∷◌, if◌then◌else◌}
use fpl_data_relay.Result.{Error, Result, ok, err}

abbrev pub Exec {ℓ} : Type ℓ → Type ℓ → Type ℓ
Exec S A = S → Result A × S

module _ {S A : Type 0} where
  abbrev pub return : A → Exec S A
  return a s = (ok a, s)

  abbrev pub raise : Error → Exec S A
  raise e s = (err e, s)

  abbrev pub lift : Result A → Exec S A
  lift r s = (r, s)

module _ {S A B : Type 0} where
  abbrev pub proceed : Result A → (A → Exec S B) → Exec S B
  proceed (err e) rest = raise e
  proceed (ok a) rest = rest a

  infixl 5 ◌>>=◌
  abbrev pub ◌>>=◌ : Exec S A → (A → Exec S B) → Exec S B
  ◌>>=◌ m rest s = let (r, s') = m s in proceed r rest s'

infixl 5 ◌>>◌
abbrev pub ◌>>◌ : {S B : Type 0} → Exec S (Unit {0}) → Exec S B → Exec S B
m >> n = m >>= λ _. n

-- `if test: raise e`
abbrev pub raise_when : {S : Type 0} → Bool → Error → Exec S (Unit {0})
raise_when true e = raise e
raise_when false e = return tt

-- A statement under `if`.
abbrev pub when : {S : Type 0} → Bool → Exec S (Unit {0}) → Exec S (Unit {0})
when true m = m
when false m = return tt

abbrev pub for_each : {S A : Type 0} → (A → Exec S (Unit {0})) → List A → Exec S (Unit {0})
for_each f [] = return tt
for_each f (x ∷ xs) = f x >> for_each f xs

-- A method keeps an invariant, whether it returns or raises.
abbrev pub Keeps : {S A : Type 0} → (S → Type 0) → Exec S A → Type 0
Keeps {S} P m = (s : S) → P s → P (m s).1

module _ {S : Type 0} (P : S → Type 0) where
  pub Keeps-proceed :
      {A B : Type 0} (r : Result A) (rest : A → Exec S B)
      → ((a : A) → Keeps P (rest a))
      → Keeps P (proceed r rest)
  Keeps-proceed (err e) rest k s p = p
  Keeps-proceed (ok a) rest k s p = k a s p

  pub Keeps-bind :
      {A B : Type 0} (m : Exec S A) (rest : A → Exec S B)
      → Keeps P m
      → ((a : A) → Keeps P (rest a))
      → Keeps P (m >>= rest)
  Keeps-bind m rest k l s p = Keeps-proceed (m s).0 rest l (m s).1 (k s p)

  pub Keeps-lift : {A : Type 0} (r : Result A) → Keeps P (lift r)
  Keeps-lift r s p = p

  pub Keeps-lift_bind :
      {A B : Type 0} (r : Result A) (rest : A → Exec S B)
      → ((a : A) → Keeps P (rest a))
      → Keeps P (lift r >>= rest)
  Keeps-lift_bind r rest k = Keeps-bind (lift r) rest (Keeps-lift r) k

  pub Keeps-raise_when : (test : Bool) (e : Error) → Keeps P (raise_when test e)
  Keeps-raise_when true e s p = p
  Keeps-raise_when false e s p = p

  pub Keeps-if :
      {A : Type 0} (test : Bool) (m n : Exec S A)
      → Keeps P m
      → Keeps P n
      → Keeps P (if test then m else n)
  Keeps-if true m n k l = k
  Keeps-if false m n k l = l

  pub Keeps-for_each :
      {A : Type 0} (f : A → Exec S (Unit {0})) (xs : List A)
      → ((a : A) → Keeps P (f a))
      → Keeps P (for_each f xs)
  Keeps-for_each f [] k s p = p
  Keeps-for_each f (x ∷ xs) k s p =
      Keeps-bind (f x) (λ _. for_each f xs) (k x) (λ _. Keeps-for_each f xs k) s p

-- What a method returns, from whatever world.
abbrev pub Gives : {S A : Type 0} → (A → Type 0) → Exec S A → Type 0
Gives {S} {A} Q m = (s : S) (a : A) → (m s).0 ≡ ok a → Q a

-- The rest may use what the first step gives.
pub Keeps-bind_where :
    {S A B : Type 0} (P : S → Type 0) (Q : A → Type 0) (m : Exec S A) (rest : A → Exec S B)
    → Keeps P m
    → Gives Q m
    → ((a : A) → Q a → Keeps P (rest a))
    → Keeps P (m >>= rest)
Keeps-bind_where {A} P Q m rest k g l s p = after (m s).0 refl
  where
    after : (r : Result A) → (m s).0 ≡ r → P (proceed r rest (m s).1).1
    after (err e) h = k s p
    after (ok a) h = l a (g s a h) (m s).1 (k s p)

-- Where a method returns, its first step has returned.
pub proceed-inv :
    {S A B : Type 0} (r : Result A) (rest : A → Exec S B) (s : S) {b : B}
    → (proceed r rest s).0 ≡ ok b
    → (a : A) × (r ≡ ok a) × ((rest a s).0 ≡ ok b)
proceed-inv (err e) rest s h = cc
proceed-inv (ok a) rest s h = (a, refl, h)

-- A method that returns has passed its checks and its earlier steps.
pub raise_when-inv :
    {S B : Type 0} (test : Bool) (e : Error) (rest : Exec S B) (s s' : S) {b : B}
    → (raise_when test e >> rest) s ≡ (ok b, s')
    → (test ≡ false) × (rest s ≡ (ok b, s'))
raise_when-inv true e rest s s' h = cc
raise_when-inv false e rest s s' h = (refl, h)

pub bind-inv :
    {S A B : Type 0} (m : Exec S A) (rest : A → Exec S B) (s s' : S) {b : B}
    → (m >>= rest) s ≡ (ok b, s')
    → (a : A) × (t : S) × (m s ≡ (ok a, t)) × (rest a t ≡ (ok b, s'))
bind-inv {S} {A} {B} m rest s s' {b} h = after (m s).0 (m s).1 refl h
  where
    after :
        (r : Result A) (t : S)
        → m s ≡ (r, t)
        → proceed r rest t ≡ (ok b, s')
        → (a : A) × (t : S) × (m s ≡ (ok a, t)) × (rest a t ≡ (ok b, s'))
    after (err e) t h k = cc
    after (ok a) t h k = (a, t, h, k)

pub lift-inv :
    {S A B : Type 0} (r : Result A) (rest : A → Exec S B) (s s' : S) {b : B}
    → (lift r >>= rest) s ≡ (ok b, s')
    → (a : A) × (r ≡ ok a) × (rest a s ≡ (ok b, s'))
lift-inv (err e) rest s s' h = cc
lift-inv (ok a) rest s s' h = (a, refl, h)

-- A last step that gives nothing but a value.
pub then_return-inv :
    {S B : Type 0} (m : Exec S (Unit {0})) (c : B) (s s' : S) {b : B}
    → (m >> return c) s ≡ (ok b, s')
    → m s ≡ (ok tt, s')
then_return-inv m c s s' h =
    let (u, t, done, h1) = bind-inv m (λ _. return c) s s' h in done ∙ ap (λ p. (ok tt, p.1)) h1

-- Where a method ends: after a raise in `E`, after a return in the `Q` of its value.
abbrev pub Lands : {S A : Type 0} → (S → Type 0) → (A → S → Type 0) → Result A × S → Type 0
Lands E Q (err e, s) = E s
Lands E Q (ok a, s) = Q a s

abbrev pub Leads :
    {S A : Type 0} → (S → Type 0) → (S → Type 0) → (A → S → Type 0) → Exec S A → Type 0
Leads {S} E P Q m = (s : S) → P s → Lands E Q (m s)

module _ {S : Type 0} (E : S → Type 0) where
  pub Leads-proceed :
      {A B : Type 0} (R : B → S → Type 0) (Q : A → S → Type 0) (rest : A → Exec S B)
      → ((a : A) → Leads E (Q a) R (rest a))
      → (r : Result A) (s : S) → Lands E Q (r, s)
      → Lands E R (proceed r rest s)
  Leads-proceed R Q rest k (err e) s h = h
  Leads-proceed R Q rest k (ok a) s h = k a s h

  pub Leads-bind :
      {A B : Type 0} (P : S → Type 0) (Q : A → S → Type 0) (R : B → S → Type 0) (m : Exec S A)
      (rest : A → Exec S B)
      → Leads E P Q m
      → ((a : A) → Leads E (Q a) R (rest a))
      → Leads E P R (m >>= rest)
  Leads-bind P Q R m rest h k s p = Leads-proceed R Q rest k (m s).0 (m s).1 (h s p)

  pub Lands-keep :
      {A : Type 0} (Q : S → Type 0)
      → ((s : S) → Q s → E s)
      → (r : Result A) (s : S) → Q s
      → Lands E (λ a. Q) (r, s)
  Lands-keep Q weaken (err e) s q = weaken s q
  Lands-keep Q weaken (ok a) s q = q

  pub Leads-keep :
      {A : Type 0} (Q : S → Type 0) (m : Exec S A)
      → ((s : S) → Q s → E s)
      → Keeps Q m
      → Leads E Q (λ a. Q) m
  Leads-keep Q m weaken k s q = Lands-keep Q weaken (m s).0 (m s).1 (k s q)

pub Keeps-Lands :
    {S A : Type 0} (P : S → Type 0) (r : Result A) (s : S) → Lands P (λ a. P) (r, s) → P s
Keeps-Lands P (err e) s p = p
Keeps-Lands P (ok a) s p = p

-- A check that has passed gives its equation to the rest.
pub Leads-check :
    {S B : Type 0} (E P : S → Type 0) (R : B → S → Type 0) (test : Bool) (e : Error)
    (rest : Exec S B)
    → ((s : S) → P s → E s)
    → (test ≡ false → Leads E P R rest)
    → Leads E P R (raise_when test e >> rest)
Leads-check E P R true e rest weaken k s p = weaken s p
Leads-check E P R false e rest weaken k s p = k refl s p

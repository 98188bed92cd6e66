-- ===== src/Base/Raise.antt =====
-- Python calls that may raise: a value or the exception that leaves the call.
use mathlib.Core.Path.{◌≡◌, refl}
use mathlib.Core.Logic.{◌⊎◌, inl, inr}
use mathlib.Core.Bool.{Bool, true, false}
use a_healthy_dns.Base.Tests.{if◌then◌else◌}
use mathlib.Core.Option.{Option, none, some}
use native.Mathlib.Omega.{arith}

-- The exception classes that the source raises, catches, or lets through.
pub data Exn : Type 0 where
  value_error overflow_error dns_error : Exn

pub data Result {ℓ} (A : Type ℓ) : Type ℓ where
  ok : A → Result A
  raised : Exn → Result A

abbrev pub raise_if : Bool → Exn → Result (Unit {0})
raise_if true e = raised e
raise_if false e = ok tt

-- The rest of a body behind a call, and behind a statement that gives no value.
infixl 5 ◌>>◌
abbrev pub ◌>>◌ {κ} : {Y : Type κ} → Result (Unit {0}) → Result Y → Result Y
ok done >> rest = rest
raised e >> rest = raised e

infixl 5 ◌>>=◌
abbrev pub ◌>>=◌ {κ ℓ} : {Y : Type κ} {X : Type ℓ} → Result X → (X → Result Y) → Result Y
raised e >>= rest = raised e
ok x >>= rest = rest x

pub Result-cases {ℓ} :
    {A : Type ℓ} (r : Result A) → ((a : A) × (r ≡ ok a)) ⊎ ((e : Exn) × (r ≡ raised e))
Result-cases (ok a) = inl (a, refl)
Result-cases (raised e) = inr (e, refl)

-- A body that returns: its first call has returned, and so has the rest.
pub >>=-eq-ok {κ ℓ} :
    {Y : Type κ} {X : Type ℓ} (call : Result X) (rest : X → Result Y) {value : Y}
    → (call >>= rest) ≡ ok value
    → (x : X) × (call ≡ ok x) × (rest x ≡ ok value)
>>=-eq-ok (raised e) rest returned = cc
>>=-eq-ok (ok x) rest returned = (x, refl, returned)

-- The rest of a body behind `if x is None: return None`.
infixl 5 ◌>>?◌
abbrev pub ◌>>?◌ {κ ℓ} :
    {Y : Type κ} {X : Type ℓ} → Result (Option X) → (X → Result (Option Y)) → Result (Option Y)
raised e >>? rest = raised e
ok none >>? rest = ok none
ok (some x) >>? rest = rest x

pub >>?-eq-some {κ ℓ} :
    {Y : Type κ} {X : Type ℓ} (call : Result (Option X)) (rest : X → Result (Option Y)) {value : Y}
    → (call >>? rest) ≡ ok (some value)
    → (x : X) × (call ≡ ok (some x)) × (rest x ≡ ok (some value))
>>?-eq-some (raised e) rest returned = cc
>>?-eq-some (ok none) rest returned = cc
>>?-eq-some (ok (some x)) rest returned = (x, refl, returned)

-- `except ValueError: return None`
abbrev pub caught {ℓ} : {X : Type ℓ} → Result X → Result (Option X)
caught (ok x) = ok (some x)
caught (raised value_error) = ok none
caught (raised e) = raised e

pub caught-eq-some {ℓ} :
    {X : Type ℓ} (call : Result X) {value : X} → caught call ≡ ok (some value) → call ≡ ok value
caught-eq-some (ok x) returned = ground arith
caught-eq-some (raised value_error) returned = cc
caught-eq-some (raised overflow_error) returned = cc
caught-eq-some (raised dns_error) returned = cc

-- A call that returns, and one that returns or raises `ValueError`.
abbrev pub Returns {ℓ} : {A : Type ℓ} → Result A → Type ℓ
Returns {A} r = (a : A) × (r ≡ ok a)

abbrev pub MayRefuse : {A : Type 0} → Result A → Type 0
MayRefuse (ok a) = Unit
MayRefuse (raised value_error) = Unit
MayRefuse (raised e) = ⊥

pub caught-Returns : {A : Type 0} (r : Result A) → MayRefuse r → Returns (caught r)
caught-Returns (ok a) h = (some a, refl)
caught-Returns (raised value_error) h = (none, refl)
caught-Returns (raised e) h = absurd h

pub >>=-MayRefuse :
    {A B : Type 0} (r : Result A) (f : A → Result B)
    → MayRefuse r
    → ((a : A) → MayRefuse (f a))
    → MayRefuse (r >>= f)
>>=-MayRefuse (ok a) f h k = k a
>>=-MayRefuse (raised value_error) f h k = tt
>>=-MayRefuse (raised e) f h k = absurd h

pub >>?-Returns :
    {A B : Type 0} (r : Result (Option A)) (f : A → Result (Option B))
    → Returns r
    → ((a : A) → Returns (f a))
    → Returns (r >>? f)
>>?-Returns (ok none) f h k = (none, refl)
>>?-Returns (ok (some a)) f h k = k a
>>?-Returns (raised e) f (a, same) k = cc

pub >>-MayRefuse :
    {B : Type 0} (r : Result (Unit {0})) (s : Result B)
    → MayRefuse r
    → MayRefuse s
    → MayRefuse (r >> s)
>>-MayRefuse (ok tt) s h k = k
>>-MayRefuse (raised value_error) s h k = tt
>>-MayRefuse (raised e) s h k = absurd h

pub raise_if-MayRefuse : (b : Bool) → MayRefuse (raise_if b value_error)
raise_if-MayRefuse true = tt
raise_if-MayRefuse false = tt

pub if-MayRefuse :
    {B : Type 0} (b : Bool) (r s : Result B)
    → MayRefuse r
    → MayRefuse s
    → MayRefuse (if b then r else s)
if-MayRefuse true r s h k = h
if-MayRefuse false r s h k = k

pub >>-eq-ok {κ} :
    {Y : Type κ} (statement : Result (Unit {0})) (rest : Result Y) {value : Y}
    → (statement >> rest) ≡ ok value
    → rest ≡ ok value
>>-eq-ok (raised e) rest returned = cc
>>-eq-ok (ok tt) rest returned = returned

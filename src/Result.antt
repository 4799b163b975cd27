-- ===== src/Result.antt =====
-- Python exceptions as values. Each tool raises one error class of its own (`RefactorError`,
-- `MulContractError`, ...), whose handler turns it into a failed report; `refused` carries the
-- message without the values that the f-string puts into it. The other constructors are the
-- exceptions of the language that the modelled code can meet and that no tool means to raise.
use nscscc_cpu.Base.{String, ◌≡◌, refl, Bool, true, false, not}

pub data Error : Type 0 where
  refused : String → Error
  -- an unhashable value is looked up in a set, or a value has no such operation
  type_error : Error
  key_error : Error

-- What a call gives its caller: an exception, or its value.
pub data Result {ℓ} (V : Type ℓ) : Type ℓ where
  err : Error → Result V
  ok : V → Result V

module _ {ℓ κ} {V : Type ℓ} {W : Type κ} where
  -- The rest of a function runs on the value of a call that returns.
  infixl 5 ◌>>=◌
  abbrev pub ◌>>=◌ : Result V → (V → Result W) → Result W
  err e >>= rest = err e
  ok v >>= rest = rest v

  infixl 5 ◌>>◌
  abbrev pub ◌>>◌ : Result V → Result W → Result W
  call >> rest = call >>= λ _. rest

  -- A function that returns has had each of its calls return.
  pub >>=-returns :
      (call : Result V) (rest : V → Result W) {w : W}
      → (call >>= rest) ≡ ok w
      → (v : V) × (call ≡ ok v) × (rest v ≡ ok w)
  >>=-returns (err e) rest returned = cc
  >>=-returns (ok v) rest returned = (v, refl, returned)

-- `if not condition: raise error(message)`
abbrev pub require : Bool → String → Result (Unit {0})
require true message = ok tt
require false message = err (refused message)

-- `if condition: raise error(message)`
abbrev pub refuse_if : Bool → String → Result (Unit {0})
refuse_if b message = require (not b) message

pub require-eq-ok : (b : Bool) (s : String) {u : Unit {0}} → require b s ≡ ok u → b ≡ true
require-eq-ok true s h = refl
require-eq-ok false s h = cc

pub refuse_if-ok : (b : Bool) (s : String) {u : Unit {0}} → refuse_if b s ≡ ok u → b ≡ false
refuse_if-ok true s h = cc
refuse_if-ok false s h = refl

-- The result is a value or the tool's own error: no exception of the language escapes.
abbrev pub NoEscape {ℓ} : {A : Type ℓ} → Result A → Type 0
NoEscape (ok a) = Unit
NoEscape (err (refused s)) = Unit
NoEscape (err type_error) = ⊥
NoEscape (err key_error) = ⊥

pub NoEscape-bind {ℓ κ} :
    {A : Type ℓ} {B : Type κ} (m : Result A) (f : A → Result B)
    → NoEscape m
    → ((a : A) → m ≡ ok a → NoEscape (f a))
    → NoEscape (m >>= f)
NoEscape-bind (ok a) f h k = k a refl
NoEscape-bind (err (refused s)) f h k = tt
NoEscape-bind (err type_error) f h k = h
NoEscape-bind (err key_error) f h k = h

pub require-NoEscape : (b : Bool) (s : String) → NoEscape (require b s)
require-NoEscape true s = tt
require-NoEscape false s = tt

pub require-bind-NoEscape {ℓ} :
    {B : Type ℓ} (b : Bool) (s : String) (m : Result B) → NoEscape m → NoEscape (require b s >> m)
require-bind-NoEscape true s m h = h
require-bind-NoEscape false s m h = tt

pub ok-injective {ℓ} : {A : Type ℓ} (a b : A) → ok a ≡ ok b → a ≡ b
ok-injective a b h = cc

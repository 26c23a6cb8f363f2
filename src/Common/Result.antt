-- ===== src/Common/Result.antt =====
-- Go's errors and (value, error) results.
use Prim.Native.Nat.{ℕ}
use Prim.Native.String.{String}
use mathlib.Core.Path.{◌≡◌, refl}
use mathlib.Core.Logic.{◌⊎◌, inl, inr}
use mathlib.Core.Bool.{Bool, true, false}
use mathlib.Core.List.{List}

-- An argument of a format verb: %d and %x take a number, %s and %q a text of bytes or a constant, %v a
-- list of texts, %t a truth value. `literal_hex` is a text of a constant and a number in base 16, `ratio`
-- a quotient of two numbers as a float64, `int64` a signed number by its 64 bits.
pub data Arg : Type 0 where
  num : ℕ → Arg
  text : List ℕ → Arg
  texts : List (List ℕ) → Arg
  bool : Bool → Arg
  literal : String → Arg
  literal_hex : String → ℕ → Arg
  ratio : ℕ → ℕ → Arg
  int64 : ℕ → Arg

-- `message` is `errors.New` and `fmt.Errorf` without %w: the format and its arguments.
-- `wrapped` is `fmt.Errorf("…: %w", …, err)`. The code of `stream_error` is that of a
-- `*quic.StreamError`; `other` stands for every other error of a library, by a number.
pub data Error : Type 0 where
  eof unexpected_eof canceled : Error
  stream_error other : ℕ → Error
  message : String → List Arg → Error
  wrapped : String → List Arg → Error → Error

-- `errors.Is(err, io.EOF)` and `errors.Is(err, context.Canceled)` walk the wraps.
unfoldable pub is_eof : Error → Bool
is_eof eof = true
is_eof unexpected_eof = false
is_eof canceled = false
is_eof (stream_error c) = false
is_eof (other c) = false
is_eof (message f a) = false
is_eof (wrapped f a e) = is_eof e

-- `err == io.EOF`, which does not look under a wrap.
unfoldable pub equals_eof : Error → Bool
equals_eof eof = true
equals_eof unexpected_eof = false
equals_eof canceled = false
equals_eof (stream_error c) = false
equals_eof (other c) = false
equals_eof (message f a) = false
equals_eof (wrapped f a e) = false

-- What a call comes to: a value, an error, a run-time panic. `stuck` is no Go value: the call never
-- returns, or a loop of the
-- model ran out of fuel.
pub data Result {ℓ} (A : Type ℓ) : Type ℓ where
  ok : A → Result A
  err : Error → Result A
  panic : Result A
  stuck : Result A

infixl 5 ◌>>=◌ ◌>>◌
abbrev pub ◌>>=◌ {ℓ κ} : {A : Type ℓ} {B : Type κ} → Result A → (A → Result B) → Result B
panic >>= k = panic
stuck >>= k = stuck
err failure >>= k = err failure
ok x >>= k = k x

abbrev pub ◌>>◌ {ℓ κ} : {A : Type ℓ} {B : Type κ} → Result A → Result B → Result B
m >> k = m >>= λ _. k

-- `if err != nil { return fmt.Errorf(format, args, err) }` behind a call.
abbrev pub wrap {ℓ} : {A : Type ℓ} → String → List Arg → Result A → Result A
wrap f a (ok x) = ok x
wrap f a (err e) = err (wrapped f a e)
wrap f a panic = panic
wrap f a stuck = stuck

-- The result was reached, whatever it is: neither a panic nor a loop out of fuel.
abbrev pub Ends {ℓ} : {A : Type ℓ} → Result A → Type 0
Ends (ok a) = Unit {0}
Ends (err e) = Unit {0}
Ends panic = ⊥
Ends stuck = ⊥

-- A value, or one of the two end-of-file errors.
abbrev pub EofOnly {ℓ} : {A : Type ℓ} → Result A → Type 0
EofOnly (ok a) = Unit {0}
EofOnly (err e) = (e ≡ eof) ⊎ (e ≡ unexpected_eof)
EofOnly panic = ⊥
EofOnly stuck = ⊥

pub EofOnly-bind {ℓ κ} :
    {A : Type ℓ} {B : Type κ} (m : Result A) (f : A → Result B)
    → EofOnly m
    → ((a : A) → m ≡ ok a → EofOnly (f a))
    → EofOnly (m >>= f)
EofOnly-bind (ok a) f h k = k a refl
EofOnly-bind (err e) f h k = h
EofOnly-bind panic f h k = h
EofOnly-bind stuck f h k = h

-- To split on a call's result and keep the equation.
pub Result-cases {ℓ} :
    {A : Type ℓ} (m : Result A)
    → ((a : A) × (m ≡ ok a)) ⊎ (((e : Error) × (m ≡ err e)) ⊎ ((m ≡ panic) ⊎ (m ≡ stuck)))
Result-cases (ok a) = inl (a, refl)
Result-cases (err e) = inr (inl (e, refl))
Result-cases panic = inr (inr (inl refl))
Result-cases stuck = inr (inr (inr refl))

pub EofOnly-cases {ℓ} :
    {A : Type ℓ} (m : Result A)
    → EofOnly m
    → ((a : A) × (m ≡ ok a)) ⊎ ((e : Error) × (m ≡ err e) × ((e ≡ eof) ⊎ (e ≡ unexpected_eof)))
EofOnly-cases (ok a) h = inl (a, refl)
EofOnly-cases (err e) h = inr (e, refl, h)
EofOnly-cases panic h = absurd h
EofOnly-cases stuck h = absurd h

module _ {ℓ κ} {A : Type ℓ} {B : Type κ} where
  -- Inversion of a successful bind, for proofs in which the parts stay shut.
  pub >>=-eq-ok :
      (r : Result A) (k : A → Result B) {y : B}
      → (r >>= k) ≡ ok y
      → (x : A) × (r ≡ ok x) × (k x ≡ ok y)
  >>=-eq-ok panic k e = cc
  >>=-eq-ok stuck k e = cc
  >>=-eq-ok (err failure) k e = cc
  >>=-eq-ok (ok x) k e = (x, refl, e)

  pub Ends-bind :
      (m : Result A) (f : A → Result B)
      → Ends m
      → ((a : A) → m ≡ ok a → Ends (f a))
      → Ends (m >>= f)
  Ends-bind (ok a) f h k = k a refl
  Ends-bind (err e) f h k = tt
  Ends-bind panic f h k = h
  Ends-bind stuck f h k = h

module _ {ℓ} {A : Type ℓ} where
  pub ok-injective : {a b : A} → ok a ≡ ok b → a ≡ b
  ok-injective h = cc

  pub wrap-eq-ok : (f : String) (a : List Arg) (m : Result A) {x : A} → wrap f a m ≡ ok x → m ≡ ok x
  wrap-eq-ok f a (ok y) h = h
  wrap-eq-ok f a (err e) h = cc
  wrap-eq-ok f a panic h = cc
  wrap-eq-ok f a stuck h = cc

  pub Ends-wrap : (f : String) (a : List Arg) (m : Result A) → Ends m → Ends (wrap f a m)
  Ends-wrap f a (ok y) h = tt
  Ends-wrap f a (err e) h = tt
  Ends-wrap f a panic h = h
  Ends-wrap f a stuck h = h

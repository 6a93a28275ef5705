-- ===== src/Go/Outcome.antt =====
-- Errors as values, and the results of Go functions: a value, an error, or a panic.
use covenant_signer.Prelude.{
  ◌≡◌, refl, arith, head?, Bool, true, false, Option, none, some, List, [], ◌∷◌, ◌++◌,
}
use covenant_signer.Go.Text.{GoString, str}

-- `invalid_signing_request` is the variable ErrInvalidSigningRequest of the package signerapp, the
-- only error that the program compares with. `new` is any other error with its text: those of
-- errors.New, of fmt.Errorf with no %w, and of other packages. `wrapped` is fmt.Errorf with %w: the
-- whole text and the error that it wraps.
pub data GoError : Type 0 where
  invalid_signing_request : GoError
  new : GoString → GoError
  wrapped : GoString → GoError → GoError

-- `err.Error()`
unfoldable pub message : GoError → GoString
message invalid_signing_request = str "invalid signing request"
message (new text) = text
message (wrapped text cause) = text

-- `errors.Is(err, ErrInvalidSigningRequest)`
unfoldable pub is_invalid_signing_request : GoError → Bool
is_invalid_signing_request invalid_signing_request = true
is_invalid_signing_request (new text) = false
is_invalid_signing_request (wrapped text cause) = is_invalid_signing_request cause

-- `fmt.Errorf("prefix: %w", cause)`
unfoldable pub errorf : GoString → GoError → GoError
unfolding message
errorf prefix cause = wrapped (prefix ++ str ": " ++ message cause) cause

pub data Outcome {ℓ} (A : Type ℓ) : Type ℓ where
  ok : A → Outcome A
  err : GoError → Outcome A
  panicked : GoString → Outcome A

infixl 5 ◌>>=◌ ◌>>◌
abbrev pub ◌>>=◌ {ℓ κ} : {A : Type ℓ} {B : Type κ} → Outcome A → (A → Outcome B) → Outcome B
ok a >>= f = f a
err e >>= f = err e
panicked m >>= f = panicked m

abbrev pub ◌>>◌ {ℓ} : {B : Type ℓ} → Outcome (Unit {0}) → Outcome B → Outcome B
m >> k = m >>= λ _. k

-- `if failed { return nil, e }`
abbrev pub fail_if : Bool → GoError → Outcome (Unit {0})
fail_if true e = err e
fail_if false e = ok tt

-- `xs[0]`
unfoldable pub first {ℓ} : {A : Type ℓ} → List A → Outcome A
first [] = panicked (str "index out of range [0] with length 0")
first (x ∷ xs) = ok x

-- `*p`
unfoldable pub dereference {ℓ} : {A : Type ℓ} → Option A → Outcome A
dereference none = panicked (str "invalid memory address or nil pointer dereference")
dereference (some a) = ok a

-- The result of a function of another package: a value, or an error that is only read as a text.
pub data Reply {ℓ} (A : Type ℓ) : Type ℓ where
  answer : A → Reply A
  failure : GoString → Reply A

-- `if err != nil { return nil, f(err) }`
abbrev pub or_fail {ℓ} : {A : Type ℓ} → (GoError → GoError) → Reply A → Outcome A
or_fail f (answer a) = ok a
or_fail f (failure text) = err (f (new text))

-- `if err != nil { return nil, err }`
abbrev pub or_err {ℓ} : {A : Type ℓ} → Reply A → Outcome A
or_err (answer a) = ok a
or_err (failure text) = err (new text)

-- `if err != nil { return nil, f(err) }` after a call within the program
abbrev pub map_error {ℓ} : {A : Type ℓ} → (GoError → GoError) → Outcome A → Outcome A
map_error f (ok a) = ok a
map_error f (err e) = err (f e)
map_error f (panicked t) = panicked t

pub map_error-eq-ok {ℓ} :
    {A : Type ℓ} (prefix : GoString) (m : Outcome A) {a : A}
    → map_error (errorf prefix) m ≡ ok a
    → m ≡ ok a
map_error-eq-ok prefix (ok a) h = h
map_error-eq-ok prefix (err e) h = cc
map_error-eq-ok prefix (panicked t) h = cc

pub ok-injective {ℓ} : {A : Type ℓ} {a b : A} → ok a ≡ ok b → a ≡ b
ok-injective h = cc

pub err-injective {ℓ} : {A : Type ℓ} {e f : GoError} → Path (Outcome A) (err e) (err f) → e ≡ f
err-injective h = cc

-- A chain that returns a value did so in each of its steps.
pub bind-eq-ok {ℓ κ} :
    {A : Type ℓ} {B : Type κ} (m : Outcome A) (f : A → Outcome B) {b : B}
    → (m >>= f) ≡ ok b
    → (a : A) × (m ≡ ok a) × (f a ≡ ok b)
bind-eq-ok (ok a) f h = (a, refl, h)
bind-eq-ok (err e) f h = cc
bind-eq-ok (panicked m) f h = cc

pub or_fail-eq-ok {ℓ} :
    {A : Type ℓ} (f : GoError → GoError) (r : Reply A) {a : A} → or_fail f r ≡ ok a → r ≡ answer a
or_fail-eq-ok f (answer x) h = cc
or_fail-eq-ok f (failure e) h = cc

pub or_err-eq-ok {ℓ} : {A : Type ℓ} (r : Reply A) {a : A} → or_err r ≡ ok a → r ≡ answer a
or_err-eq-ok (answer x) h = cc
or_err-eq-ok (failure e) h = cc

pub first-eq-ok {ℓ} : {A : Type ℓ} (xs : List A) {a : A} → first xs ≡ ok a → head? xs ≡ some a
unfolding first
first-eq-ok [] h = cc
first-eq-ok (x ∷ xs) h = cc

pub first_of_head {ℓ} : {A : Type ℓ} (xs : List A) {a : A} → head? xs ≡ some a → first xs ≡ ok a
unfolding first
first_of_head [] h = cc
first_of_head (x ∷ xs) h = cc

pub fail_if-eq-ok : (b : Bool) (e : GoError) {u : Unit {0}} → fail_if b e ≡ ok u → b ≡ false
fail_if-eq-ok true e h = cc
fail_if-eq-ok false e h = refl

abbrev pub NoPanic {ℓ} : {A : Type ℓ} → Outcome A → Type ℓ
NoPanic {A} r = (t : GoString) → Path (Outcome A) r (panicked t) → ⊥

pub bind-NoPanic {ℓ} :
    {A B : Type ℓ} (m : Outcome A) (f : A → Outcome B)
    → NoPanic m
    → ((a : A) → m ≡ ok a → NoPanic (f a))
    → NoPanic (m >>= f)
bind-NoPanic (ok a) f none_in_m none_in_f t h = none_in_f a refl t h
bind-NoPanic (err e) f none_in_m none_in_f t h = cc
bind-NoPanic (panicked u) f none_in_m none_in_f t h = none_in_m u refl

pub or_fail-NoPanic {ℓ} : {A : Type ℓ} (f : GoError → GoError) (r : Reply A) → NoPanic (or_fail f r)
or_fail-NoPanic f (answer a) t h = cc
or_fail-NoPanic f (failure text) t h = cc

pub or_err-NoPanic {ℓ} : {A : Type ℓ} (r : Reply A) → NoPanic (or_err r)
or_err-NoPanic (answer a) t h = cc
or_err-NoPanic (failure text) t h = cc

pub fail_if-NoPanic : (b : Bool) (e : GoError) → NoPanic (fail_if b e)
fail_if-NoPanic true e t h = cc
fail_if-NoPanic false e t h = cc

pub ok-NoPanic {ℓ} : {A : Type ℓ} (a : A) → NoPanic (ok a)
ok-NoPanic a t h = cc

pub or_err-eq-err {ℓ} :
    {A : Type ℓ} (r : Reply A) {e : GoError}
    → or_err r ≡ err e
    → (text : GoString) × (r ≡ failure text) × (e ≡ new text)
or_err-eq-err (answer a) h = cc
or_err-eq-err (failure text) h = (text, refl, ground arith)

-- A chain that ends with an error has it from its first step or from the rest.
pub err_rule {ℓ κ} :
    {A B : Type ℓ} {P : Type κ} (m : Outcome A) (f : A → Outcome B) {e : GoError}
    → (m >>= f) ≡ err e
    → (m ≡ err e → P)
    → ((a : A) → m ≡ ok a → f a ≡ err e → P)
    → P
err_rule (ok a) f h on_err on_ok = on_ok a refl h
err_rule (err x) f h on_err on_ok = on_err (ground arith)
err_rule (panicked t) f h on_err on_ok = cc

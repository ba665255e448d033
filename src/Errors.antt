-- ===== src/Errors.antt =====
-- domain/errors.py: what a domain function raises, and results that may be an error.
use sopara.Prelude.{String, ◌≡◌, refl, ◌⊎◌, inl, inr, Bool, true, false}

-- `DomainError(message)`, `InvalidTransitionError`, and Python's OverflowError, StopIteration,
-- IndexError and decimal.InvalidOperation; ValueError and TypeError with their messages, and KeyError with its key.
-- application/ports.py: `ObjectNotFoundError(key)`. adapters/database/errors.py: the errors of the
-- repositories, with their messages; SQLAlchemy's NoResultFound and IntegrityError. api/sse.py: the
-- errors of the event stream.
pub data Error : Type 0 where
  domain_error : String → Error
  invalid_transition overflow_error stop_iteration index_error invalid_operation : Error
  value_error type_error key_error object_not_found : String → Error
  idempotency_conflict optimistic_concurrency stale_lease : String → Error
  no_result_found integrity_error : Error
  stream_cursor_expired stream_gap stream_schema_changed : String → Error

-- What a call ends with: a raised error or a value.
pub data Result {ℓ} (V : Type ℓ) : Type ℓ where
  err : Error → Result V
  ok : V → Result V

-- `if test: raise DomainError(message)`
abbrev pub raise_if : Bool → String → Result (Unit {0})
raise_if false message = ok tt
raise_if true message = err (domain_error message)

-- `if test: raise error`
abbrev pub raise_when : Bool → Error → Result (Unit {0})
raise_when false raised = ok tt
raise_when true raised = err raised

-- An error skips the rest of the body.
infixl 5 ◌>>=◌
abbrev pub ◌>>=◌ {ℓ κ} : {V : Type ℓ} {W : Type κ} → Result V → (V → Result W) → Result W
err raised >>= rest = err raised
ok v >>= rest = rest v

infixl 5 ◌>>◌
abbrev pub ◌>>◌ {κ} : {W : Type κ} → Result (Unit {0}) → Result W → Result W
err raised >> rest = err raised
ok done >> rest = rest

pub ok-injective {ℓ} : {V : Type ℓ} {v w : V} → ok v ≡ ok w → v ≡ w
ok-injective same = cc

-- A body that returns has a first step that returned.
pub >>=-returned {ℓ κ} :
    {V : Type ℓ} {W : Type κ} (first : Result V) (rest : V → Result W) {w : W}
    → (first >>= rest) ≡ ok w
    → (v : V) × (first ≡ ok v) × (rest v ≡ ok w)
>>=-returned (err raised) rest returned = cc
>>=-returned (ok v) rest returned = (v, refl, returned)

pub Result-cases {ℓ} :
    {V : Type ℓ} (r : Result V) → ((raised : Error) × (r ≡ err raised)) ⊎ ((v : V) × (r ≡ ok v))
Result-cases (err raised) = inl (raised, refl)
Result-cases (ok v) = inr (v, refl)

-- A body that returns passed its guard.
pub raise_when-returned {κ} :
    {W : Type κ} (test : Bool) (raised : Error) (rest : Result W) {w : W}
    → (raise_when test raised >> rest) ≡ ok w
    → (test ≡ false) × (rest ≡ ok w)
raise_when-returned true raised rest returned = cc
raise_when-returned false raised rest returned = (refl, returned)

pub >>-returned {κ} :
    {W : Type κ} (first : Result (Unit {0})) (rest : Result W) {w : W}
    → (first >> rest) ≡ ok w
    → (first ≡ ok tt) × (rest ≡ ok w)
>>-returned (err raised) rest returned = cc
>>-returned (ok done) rest returned = (refl, returned)

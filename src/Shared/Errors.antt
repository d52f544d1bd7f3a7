-- ===== src/Shared/Errors.antt =====
-- The exceptions that the finance service raises, with the classes that they derive from
-- (services/finance-service/domain/shared/exceptions.py and domain/exceptions.py), the exceptions
-- of the libraries that its code lets through, and the monad of calls that may raise.
-- An exception is its class: the messages are texts for the reader and are left out.
use finty.Base.{⊤, ◌≡◌, refl, ◌⊎◌, inl, inr, Bool, if◌then◌else◌}

pub data DomainError : Type 0 where
  validation_error business_rule_error not_found permission_denied authentication_error :
      DomainError
  currency_mismatch : DomainError
  zero_amount invalid_transaction_type future_transaction_date uncategorized_transaction :
      DomainError
  archived_account negative_balance_not_allowed account_has_transactions : DomainError
  account_not_owned account_not_found transaction_not_found category_not_found : DomainError
  negative_amount duplicate_account_name category_type_mismatch : DomainError
  invalid_period invalid_event report_not_found report_not_ready : DomainError
  invalid_risk_answer risk_profile_not_found risk_profile_required : DomainError
  instrument_not_recommended invalid_horizon invalid_monthly_contribution : DomainError
  investment_plan_not_found unsupported_currency_pair : DomainError

-- The constraints of the tables by which PostgreSQL rejects a write.
pub data Constraint : Type 0 where
  uniq_account_name_per_user ck_account_opening_balance_sign ck_account_currency_length : Constraint
  ck_transaction_confidence_range : Constraint
  ck_transaction_amount_not_zero transaction_account_fk primary_key : Constraint
  uq_outbox_manually_added_once uq_outbox_event_id : Constraint

-- `invalid_operation` is `decimal.InvalidOperation`; `integrity_error` and `data_error` are
-- SQLAlchemy's, `transient_error` is one of `TRANSIENT_ERRORS`; `value_error` and `overflow_error` are Python's.
pub data Error : Type 0 where
  domain : DomainError → Error
  invalid_operation value_error data_error stream_unavailable : Error
  overflow_error configuration_error transient_error : Error
  integrity_error : Constraint → Error

-- What a call returns, or the exception that it raises.
pub data Result {κ} (R : Type κ) : Type κ where
  err : Error → Result R
  ok : R → Result R

-- The rest of a call runs where nothing was raised.
infixl 5 ◌>>◌ ◌>>=◌
unfoldable pub ◌>>◌ {κ} : {R : Type κ} → Result ⊤ → Result R → Result R
err x >> rest = err x
ok _ >> rest = rest

unfoldable pub ◌>>=◌ {κ μ} : {R : Type κ} {S : Type μ} → Result R → (R → Result S) → Result S
err x >>= rest = err x
ok v >>= rest = rest v

-- `if c: raise e`
abbrev pub raise_if : Bool → Error → Result ⊤
raise_if c e = if c then err e else ok tt

-- To split on a result and keep the equation.
pub Result-cases {ℓ} :
    {A : Type ℓ} (x : Result A) → ((a : A) × (x ≡ ok a)) ⊎ ((e : Error) × (x ≡ err e))
Result-cases (ok a) = inl (a, refl)
Result-cases (err e) = inr (e, refl)

-- The first value of a call that returned.
pub >>=-eq-ok {κ μ} :
    {R : Type κ} {S : Type μ} (x : Result R) (rest : R → Result S) {s : S}
    → (x >>= rest) ≡ ok s
    → (v : R) × (x ≡ ok v) × (rest v ≡ ok s)
unfolding ◌>>=◌
>>=-eq-ok (err _) rest e = cc
>>=-eq-ok (ok v) rest e = (v, refl, e)

pub >>-eq-ok {ℓ} :
    {B : Type ℓ} (m : Result ⊤) (k : Result B) {b : B} → (m >> k) ≡ ok b → (m ≡ ok tt) × (k ≡ ok b)
unfolding ◌>>◌
>>-eq-ok (ok _) k h = (refl, h)
>>-eq-ok (err e) k h = cc

pub ok-injective {ℓ} : {A : Type ℓ} {a b : A} → ok a ≡ ok b → a ≡ b
ok-injective e = cc

-- The classes that the handlers tell apart.
pub data ErrorClass : Type 0 where
  validation business_rule missing permission authentication : ErrorClass

-- The class of `ErrorClass` that an exception derives from.
unfoldable pub class_of : DomainError → ErrorClass
class_of validation_error = validation
class_of business_rule_error = business_rule
class_of not_found = missing
class_of permission_denied = permission
class_of authentication_error = authentication
class_of currency_mismatch = validation
class_of zero_amount = validation
class_of invalid_transaction_type = validation
class_of future_transaction_date = validation
class_of uncategorized_transaction = validation
class_of archived_account = business_rule
class_of negative_balance_not_allowed = business_rule
class_of account_has_transactions = business_rule
class_of account_not_owned = permission
class_of account_not_found = missing
class_of transaction_not_found = missing
class_of category_not_found = missing
class_of negative_amount = validation
class_of duplicate_account_name = business_rule
class_of category_type_mismatch = validation
class_of invalid_period = validation
class_of invalid_event = validation
class_of report_not_found = missing
class_of report_not_ready = business_rule
class_of invalid_risk_answer = validation
class_of risk_profile_not_found = missing
class_of risk_profile_required = business_rule
class_of instrument_not_recommended = validation
class_of invalid_horizon = validation
class_of invalid_monthly_contribution = validation
class_of investment_plan_not_found = missing
class_of unsupported_currency_pair = validation

-- ===== src/Errors.antt =====
-- cmdboss/errors.py: the exceptions of the domain code with their stable codes and HTTP statuses.
-- Messages are left out; `details` is kept where a constructor carries it.
pub mod Result
use cmdboss.Prelude.{ℕ, String, Option, Bool, true, false}
use cmdboss.Value.{Number}

pub data Error : Type 0 where
  -- NotFoundError, BadRequestError, ValidationFailedError, UnauthorizedError, ForbiddenError
  not_found bad_request validation_failed unauthorized forbidden : Error
  -- PreconditionRequiredError, PayloadTooLargeError
  precondition_required payload_too_large : Error
  -- ConflictError under its default code, or under the `code` that the raise gives
  conflict : Error
  conflict_as : String → Error
  -- PreconditionFailedError(details={expected_revision, current_revision})
  precondition_failed : Option Number → ℕ → Error
  -- RateLimitedError(details={retry_after})
  rate_limited : ℕ → Error
  -- pydantic's ValidationError, pymongo's DuplicateKeyError, and any other exception: these are no
  -- AppError
  invalid_model duplicate_key unexpected : Error

-- `isinstance(exc, AppError)`
unfoldable pub is_app_error : Error → Bool
is_app_error Error.invalid_model = false
is_app_error Error.duplicate_key = false
is_app_error Error.unexpected = false
is_app_error _ = true

-- `isinstance(exc, ConflictError)`: PreconditionFailedError is a subclass
unfoldable pub is_conflict : Error → Bool
is_conflict Error.conflict = true
is_conflict (Error.conflict_as _) = true
is_conflict (Error.precondition_failed _ _) = true
is_conflict _ = false

-- `exc.code`: the class's code, or the one given to the constructor. The last lines are the codes
-- of the AppErrors that the handlers of pydantic's errors and of all others build.
unfoldable pub error_code : Error → String
error_code Error.not_found = "not_found"
error_code Error.bad_request = "bad_request"
error_code Error.validation_failed = "validation_failed"
error_code Error.unauthorized = "unauthorized"
error_code Error.forbidden = "forbidden"
error_code Error.precondition_required = "precondition_required"
error_code Error.payload_too_large = "payload_too_large"
error_code Error.conflict = "conflict"
error_code (Error.conflict_as code) = code
error_code (Error.precondition_failed _ _) = "revision_conflict"
error_code (Error.rate_limited _) = "rate_limited"
error_code Error.invalid_model = "validation_failed"
error_code _ = "internal_error"

-- `exc.status_code`
unfoldable pub status_code : Error → ℕ
status_code Error.not_found = 404
status_code Error.bad_request = 400
status_code Error.validation_failed = 422
status_code Error.unauthorized = 401
status_code Error.forbidden = 403
status_code Error.precondition_required = 428
status_code Error.payload_too_large = 413
status_code Error.conflict = 409
status_code (Error.conflict_as _) = 409
status_code (Error.precondition_failed _ _) = 409
status_code (Error.rate_limited _) = 429
status_code Error.invalid_model = 422
status_code _ = 500

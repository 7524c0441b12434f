-- ===== src/Xray/Retries.antt =====
-- internal/adapter/xray/errors.go: the kinds and the retry mark of mapped errors.
use xpanel.Prelude.{◌≡◌, refl, inl, inr, Bool, true, false, arith, Bool-cases}
use xpanel.Prelude.Text.{Text}
use xpanel.Ports.{ErrorKind, instance_unavailable, deadline_exceeded, internal}
use xpanel.Xray.{
  Code, ApiError, not_found_code, other_code, not_found_error, message_error, code_error, map_error,
}

-- A kind that is worth another attempt.
abbrev pub is_transient : ErrorKind → Bool
is_transient deadline_exceeded = true
is_transient instance_unavailable = true
is_transient internal = true
is_transient _ = false

not_found_error-retryable :
    (operation : Text)
    → (not_found_error operation).retryable ≡ is_transient (not_found_error operation).kind
unfolding not_found_error
not_found_error-retryable operation = ground arith

message_error-retryable :
    (operation message : Text)
    → (message_error operation message).retryable
      ≡ is_transient (message_error operation message).kind
unfolding message_error
message_error-retryable operation message = ground arith

code_error-retryable :
    (operation message : Text) (c : Code)
    → (code_error operation message c).retryable
      ≡ is_transient (code_error operation message c).kind
code_error-retryable operation message not_found_code = not_found_error-retryable operation
code_error-retryable operation message other_code = message_error-retryable operation _
code_error-retryable operation message _ = refl

-- An error of the API is retryable exactly when its kind is a timeout, an unavailable node or an unknown
-- failure; every error that says what the node holds or refuses is not.
pub map_error_retryable :
    (operation : Text) (e : ApiError)
    → (map_error operation e).retryable ≡ is_transient (map_error operation e).kind
unfolding map_error
map_error_retryable operation e = elim (Bool-cases e.is_deadline) [
  | inl y ↦ rw y refl
  | inr n ↦ rw n (code_error-retryable operation e.message e.code)
]

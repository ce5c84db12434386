-- ===== src/Errcode.antt =====
-- errcode/errcode.go: Go errors as values, and the coded errors of the program.
use nexo.Prelude.{
  ℕ, ◌/◌, ◌%◌, Bool, true, false, ◌||◌, Option, none, some, ltb, ◌==◌, if◌then◌else◌,
}
use nexo.Prelude.Bytes.{Bytes, text}

-- A Go `error`. `nil` is no error; `coded` is `*errcode.Error` with its cause (`nil` for none);
-- `wrapped` is any other error that unwraps to a cause; the rest are the sentinels of the packages
-- `store` and `message`, and `failure` stands for what a driver or the network reports.
pub data GoError : Type 0 where
  nil : GoError
  coded : ℕ → Bytes → GoError → GoError
  wrapped : Bytes → GoError → GoError
  not_found : GoError
  duplicate : GoError
  rollback : GoError
  failure : GoError

-- The fallible results of Go functions `(A, error)`.
pub data Result {ℓ} (A : Type ℓ) : Type ℓ where
  ok : A → Result A
  err : GoError → Result A

pub data Class : Type 0 where
  business system other : Class

-- `Class(e.Code / 10000)`
unfoldable pub class_of : ℕ → Class
class_of code = if code / 10000 == 1 then business else if code / 10000 == 2 then system else other

-- `errors.AsType[*Error]`: the first coded error of the chain.
unfoldable pub as_coded : GoError → Option (ℕ × Bytes × GoError)
as_coded (coded c m e) = some (c, m, e)
as_coded (wrapped m e) = as_coded e
as_coded _ = none

-- `errors.Is(err, store.ErrNotFound)`
unfoldable pub is_not_found : GoError → Bool
is_not_found not_found = true
is_not_found (coded c m e) = is_not_found e
is_not_found (wrapped m e) = is_not_found e
is_not_found _ = false

-- `errors.Is(err, target)` for a coded target: some error of the chain has its code.
unfoldable pub is_code : ℕ → GoError → Bool
is_code k (coded c m e) = c == k || is_code k e
is_code k (wrapped m e) = is_code k e
is_code k _ = false

-- The check of `New`; a malformed code panics.
unfoldable pub well_formed : ℕ → Bool
well_formed code =
    if ltb code 10000 || ltb 29999 code then false else if code % 100 == 0 then false else true

-- A coded error before a cause is attached.
pub record Code : Type 0 where
  pub code : ℕ
  pub message : Bytes

unfoldable pub wrap : Code → GoError → GoError
wrap c cause = coded c.code c.message cause

unfoldable pub with_message : Code → Bytes → GoError
with_message c m = coded c.code m nil

abbrev pub plain : Code → GoError
plain c = coded c.code c.message nil

abbrev pub err_invalid_param : Code
err_invalid_param = record { code = 10001; message = text "invalid parameter" }

abbrev pub err_too_many_requests : Code
err_too_many_requests = record { code = 10005; message = text "too many requests" }

abbrev pub err_no_permission : Code
err_no_permission = record { code = 10006; message = text "no permission to access this resource" }

abbrev pub err_internal : Code
err_internal = record { code = 20001; message = text "internal server error" }

abbrev pub err_store_failed : Code
err_store_failed = record { code = 20002; message = text "storage unavailable" }

abbrev pub err_user_not_found : Code
err_user_not_found = record { code = 10201; message = text "user not found" }

abbrev pub err_group_not_found : Code
err_group_not_found = record { code = 10301; message = text "group not found" }

abbrev pub err_group_dismissed : Code
err_group_dismissed = record { code = 10302; message = text "group has been dismissed" }

abbrev pub err_not_group_member : Code
err_not_group_member = record { code = 10303; message = text "not a group member" }

abbrev pub err_already_group_member : Code
err_already_group_member = record { code = 10305; message = text "already a group member" }

abbrev pub err_not_group_admin : Code
err_not_group_admin = record { code = 10307; message = text "not group admin" }

abbrev pub err_cannot_kick_owner : Code
err_cannot_kick_owner = record { code = 10308; message = text "cannot kick group owner" }

abbrev pub err_group_full : Code
err_group_full = record { code = 10309; message = text "group member limit reached" }

abbrev pub err_message_content_too_long : Code
err_message_content_too_long = record { code = 10403; message = text "message content too large" }

abbrev pub err_seq_alloc_failed : Code
err_seq_alloc_failed = record { code = 20401; message = text "seq allocation failed" }

abbrev pub err_message_send_failed : Code
err_message_send_failed = record { code = 20402; message = text "message send failed" }

abbrev pub err_login_failed : Code
err_login_failed = record { code = 10105; message = text "login failed" }

abbrev pub err_user_exists : Code
err_user_exists = record { code = 10202; message = text "user already exists" }

abbrev pub err_provider_disabled : Code
err_provider_disabled = record { code = 10107; message = text "auth provider disabled" }

abbrev pub err_message_not_found : Code
err_message_not_found = record { code = 10401; message = text "message not found" }

abbrev pub err_message_pull_failed : Code
err_message_pull_failed = record { code = 20403; message = text "message pull failed" }

abbrev pub err_conversation_not_found : Code
err_conversation_not_found = record { code = 10501; message = text "conversation not found" }

abbrev pub err_conn_over_limit : Code
err_conn_over_limit = record { code = 10601; message = text "connection over max limit" }

abbrev pub err_conn_closed : Code
err_conn_closed = record { code = 10602; message = text "connection closed" }

abbrev pub err_node_draining : Code
err_node_draining = record { code = 10604; message = text "node is shutting down" }

-- `From`: an error that is not coded becomes `ErrInternal`.
unfoldable pub from : GoError → GoError
unfolding as_coded wrap
from nil = nil
from e = elim (as_coded e) [ some (c, m, cause) ↦ coded c m cause | none ↦ wrap err_internal e ]

-- `Or`: keeps a coded error, and wraps any other as the fallback.
unfoldable pub or_else : GoError → Code → GoError
unfolding as_coded wrap
or_else e fallback = elim (as_coded e) [ some _ ↦ e | none ↦ wrap fallback e ]

-- What most services make of an error of the store: `code` where the row is missing, and
-- `ErrStoreFailed` with the error as its cause where the statement failed.
unfoldable pub missing_as : Code → GoError → GoError
unfolding is_not_found wrap
missing_as code e = if is_not_found e then plain code else wrap err_store_failed e

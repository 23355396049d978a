-- ===== src/Proxy/Errors.antt =====
-- What the program asks of an error of package net, and typeOfErr of pkg/proxy/server.go.
use webircgateway.Base.{Option, none, some, if◌then◌else◌}
use webircgateway.Text.Bytes.{Bytes, codes, equal}

-- A net.Error that timed out, a *net.OpError with its Op, syscall.ECONNREFUSED, or any other error.
pub data NetError : Type 0 where
  timed_out : NetError
  op_error : Bytes → NetError
  conn_refused : NetError
  other : NetError

-- The results of typeOfErr: "timeout", "unknown_host", "refused" and "".
pub data ErrType : Type 0 where
  timeout unknown_host refused no_type : ErrType

unfoldable pub type_of_err : Option NetError → ErrType
type_of_err none = no_type
type_of_err (some timed_out) = timeout
type_of_err (some (op_error op)) =
    if equal op (codes "dial")
    then unknown_host
    else if equal op (codes "read")
    then refused
    else no_type
type_of_err (some conn_refused) = refused
type_of_err (some other) = no_type

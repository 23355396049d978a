-- ===== src/Gateway/Errors.antt =====
-- typeOfErr of pkg/webircgateway/client.go, and the reason that a client is told when its upstream fails.
use webircgateway.Base.{Option, none, some, [], ◌++◌, if◌then◌else◌}
use webircgateway.Text.Bytes.{Bytes, codes, equal}
use webircgateway.Proxy.Errors.{
  NetError, timed_out, op_error, other, ErrType, timeout, unknown_host, refused, no_type,
}
use webircgateway.Proxy.Connection.{
  DialError, not_closed, no_connection, conn_error, net_error, ConnType, conn_reset, not_found,
  conn_timeout,
}

-- The case *proxy.ConnError
unfoldable pub type_of_conn : ConnType → ErrType
type_of_conn conn_reset = no_type
type_of_conn ConnType.conn_refused = refused
type_of_conn not_found = unknown_host
type_of_conn conn_timeout = timeout

type_of_net : NetError → ErrType
type_of_net timed_out = timeout
type_of_net (op_error op) =
    if equal op (codes "dial")
    then unknown_host
    else if equal op (codes "read")
    then refused
    else no_type
type_of_net NetError.conn_refused = refused
type_of_net other = no_type

unfoldable pub type_of_err : Option DialError → ErrType
unfolding type_of_conn type_of_net
type_of_err none = no_type
type_of_err (some not_closed) = no_type
type_of_err (some no_connection) = no_type
type_of_err (some (conn_error t)) = type_of_conn t
type_of_err (some (net_error e)) = type_of_net e

pub err_name : ErrType → Bytes
err_name timeout = codes "timeout"
err_name unknown_host = codes "unknown_host"
err_name refused = codes "refused"
err_name no_type = []

-- errString behind a direct dial and behind a dial of the proxy
unfoldable pub dial_reason : ErrType → Bytes
unfolding err_name
dial_reason no_type = []
dial_reason t = codes "err_" ++ err_name t

unfoldable pub proxy_reason : ErrType → Bytes
unfolding err_name
proxy_reason no_type = codes "err_proxy"
proxy_reason t = codes "err_" ++ err_name t

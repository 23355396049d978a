-- ===== src/Identd/Rpc.antt =====
-- pkg/identd/rpcclient.go: the RPC client's connection and the lines that it writes.
use webircgateway.Base.{ℕ, Bool, true, false, Option, none, some, List, [], ◌∷◌, ◌++◌}
use webircgateway.Text.Bytes.{Bytes, codes}
use webircgateway.Text.Decimal.{format}

-- Conn: none is nil, otherwise the lines written to it.
pub record RpcClient : Type 0 where
  pub app_name : Bytes
  pub conn : Option (List Bytes)

abbrev pub make_rpc_client : Bytes → RpcClient
make_rpc_client app_name = record { app_name = app_name; conn = none }

write_to : Bool → Bytes → Option (List Bytes) → RpcClient → RpcClient × Bool
write_to sent line none rpc = (rpc, false)
write_to true line (some lines) rpc =
    (record rpc { conn = some (lines ++ (line ++ codes "\n") ∷ []) }, true)
write_to false line (some lines) rpc = (record rpc { conn = none }, false)

-- Write; `sent` is what the socket's Write answers, and the result tells whether no error is returned.
unfoldable pub write : Bool → Bytes → RpcClient → RpcClient × Bool
unfolding write_to
write sent line rpc = write_to sent line rpc.conn rpc

-- Connect, with the answers of net.Dial and of the write of the id line.
unfoldable pub connect : Bool → Bool → RpcClient → RpcClient × Bool
unfolding write
connect false sent rpc = (rpc, false)
connect true sent rpc =
    ((write sent (codes "id " ++ rpc.app_name) (record rpc { conn = some [] })).0, true)

-- One round of ConnectAndReconnect.
unfoldable pub reconnect : Bool → Bool → RpcClient → RpcClient
reconnect dialed sent rpc = elim rpc.conn [ none ↦ (connect dialed sent rpc).0 | some lines ↦ rpc ]

unfoldable pub add_ident : Bool → ℕ → ℕ → Bytes → Bytes → RpcClient → RpcClient
add_ident sent lport rport username iface rpc =
    (write sent
      (codes "add "
        ++ (username
            ++ (codes " "
                ++ (format lport ++ (codes " " ++ (format rport ++ (codes " " ++ iface)))))))
      rpc).0

unfoldable pub remove_ident : Bool → ℕ → ℕ → Bytes → Bytes → RpcClient → RpcClient
remove_ident sent lport rport username iface rpc =
    (write sent
      (codes "del " ++ (format lport ++ (codes " " ++ (format rport ++ (codes " " ++ iface)))))
      rpc).0

-- ===== src/Identd/Server.antt =====
-- pkg/identd/identd.go: the entries of the ident server and its answer to a lookup. The methods hold
-- EntriesLock for their whole body. A port is a natural number.
use webircgateway.Base.{ℕ, ◌&&◌, Option, none, some, [], ◌∷◌, ◌++◌, ltb, if◌then◌else◌}
use webircgateway.Text.Bytes.{Bytes, codes}
use webircgateway.Text.Decimal.{format}
use webircgateway.Dict.{Dict, lookup, insert, erase}

-- fmt.Sprintf("%d-%d", localPort, remotePort)
unfoldable pub entry_key : ℕ → ℕ → Bytes
entry_key local_port remote_port = format local_port ++ b'-' ∷ format remote_port

unfoldable pub add_ident : ℕ → ℕ → Bytes → Dict Bytes → Dict Bytes
add_ident local_port remote_port ident entries =
    insert entries (entry_key local_port remote_port) ident

unfoldable pub remove_ident : ℕ → ℕ → Dict Bytes → Dict Bytes
remove_ident local_port remote_port entries = erase entries (entry_key local_port remote_port)

answer_with : ℕ → ℕ → Option Bytes → Bytes
answer_with local_port remote_port none =
    format local_port ++ (codes ", " ++ (format remote_port ++ codes " : ERROR : NO-USER\r\n"))
answer_with local_port remote_port (some ident) =
    format local_port
    ++ (codes ", "
        ++ (format remote_port ++ (codes " : USERID : UNIX : " ++ (ident ++ codes "\r\n"))))

-- What is written to the connection for the two ports that Sscanf read, 0 where it read none.
unfoldable pub answer : ℕ → ℕ → Dict Bytes → Bytes
unfolding answer_with
answer local_port remote_port entries =
    if ltb 0 local_port && ltb 0 remote_port
    then answer_with local_port remote_port (lookup entries (entry_key local_port remote_port))
    else []

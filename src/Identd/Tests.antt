-- ===== src/Identd/Tests.antt =====
-- The ident server at concrete calls.
use webircgateway.Base.{◌≡◌, refl, List, [], ◌∷◌}
use webircgateway.Text.Bytes.{codes}
use webircgateway.Dict.{Dict, lookup, insert}
use webircgateway.Identd.Server.{entry_key, add_ident, answer}
use webircgateway.Identd.Laws.{IdentOp, run, ident_of, lookup-run}

answer_user :
    answer 40 6667 (add_ident 40 6667 (codes "user") [])
    ≡ codes "40, 6667 : USERID : UNIX : user\r\n"
unfolding answer add_ident entry_key lookup webircgateway.Dict.insert
    webircgateway.Text.Decimal.format
answer_user = refl

abbrev calls : List IdentOp
calls = IdentOp.add 4 66 (codes "a") ∷ IdentOp.add 46 6 (codes "b") ∷ IdentOp.remove 46 6 ∷ []

lookup-run_example :
    lookup (run calls []) (entry_key 4 66) ≡ ident_of calls 4 66 (lookup [] (entry_key 4 66))
lookup-run_example = lookup-run calls [] 4 66

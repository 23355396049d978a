-- ===== src/Gateway/Config/Paths.antt =====
-- ResolvePath and SetConfigFile of pkg/webircgateway/config.go.
use webircgateway.Base.{◌∷◌, ◌++◌, if◌then◌else◌, Outcome, ok, ◌>>=◌}
use webircgateway.Text.Bytes.{Bytes, codes, equal, has_prefix}
use webircgateway.Text.Index.{slice}
use webircgateway.Text.Paths.{clean, dir, abs}
use webircgateway.Gateway.Config.{Config}

-- ResolvePath; path[0:1] of an empty path panics.
unfoldable pub resolve_path : Config → Bytes → Outcome Bytes
resolve_path c path = slice path 0 1 >>= λ first.
    ok (if equal first (codes "/") then path else clean (dir c.config_file ++ b'/' ∷ path))

-- SetConfigFile; the working directory is the first argument.
unfoldable pub set_config_file : Bytes → Bytes → Config → Config
set_config_file cwd config_file c =
    if has_prefix config_file (codes "$ ")
    then record c { config_file = config_file }
    else record c { config_file = abs cwd config_file }

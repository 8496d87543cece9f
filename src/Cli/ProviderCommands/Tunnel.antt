-- ===== src/Cli/ProviderCommands/Tunnel.antt =====
-- `TunnelSpec::parse` of rolen-core/src/types.rs.
use Prim.Native.Char.{code}
use role_n.Prelude.{ℕ, ◌^◌, String, Bool, true, false, Option, none, some, if◌then◌else◌, eqb}
use role_n.Core.Text.{codes}
use role_n.Core.Text.Numbers.{parse_below}
use role_n.Providers.Registry.{TunnelSpec}

pub data Parsed : Type 0 where
  bad_spec : Parsed
  spec : TunnelSpec → Parsed

abbrev pub no_text : String → Bool
no_text String.[] = true
no_text (String.◌∷◌ _ _) = false

-- `split_once`
unfoldable pub split_at : ℕ → String → Option (String × String)
split_at sep String.[] = none
split_at sep (String.◌∷◌ c s) =
    let rest = split_at sep s in
    if eqb (code c) sep
    then some ("", s)
    else elim rest [ none ↦ none | some ab ↦ some (String.◌∷◌ c ab.0, ab.1) ]

abbrev pub host_and_port : String → Option (String × String) → Option (String × ℕ)
host_and_port rest none = some (rest, 22)
host_and_port rest (some (h, p)) = elim (parse_below (2 ^ 16) (codes p)) [
  | none ↦ none
  | some port ↦ some (h, port)
]

abbrev pub with_host : String → Option (String × ℕ) → Parsed
with_host user none = bad_spec
with_host user (some (host, port)) =
    if no_text host
    then bad_spec
    else spec (record {
      user = user;
      host = host;
      port = port;
      remote_host = "localhost";
      remote_port = 11434;
      local_port = 11435;
      identity_file = none;
    })

abbrev pub with_user : Option (String × String) → Parsed
with_user none = bad_spec
with_user (some (user, rest)) =
    if no_text user then bad_spec else with_host user (host_and_port rest (split_at b':' rest))

unfoldable pub tunnel_parse : String → Parsed
unfolding split_at parse_below
tunnel_parse s = with_user (split_at b'@' s)

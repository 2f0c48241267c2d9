-- ===== src/Configuration/Examples.antt =====
-- The theorems about the configuration, applied to a `.env` file and a small environment.
use node_red_contrib_pod_gat.Prelude.{
  ℕ, ◌*◌, ◌+◌, ◌-◌, ◌≤◌, ◌≡◌, refl, true, false, Option, none, some, [], ◌∷◌, Text, text_eq, codes,
  All, arith,
}
use mathlib.Core.Option
use node_red_contrib_pod_gat.Map.{Map, get}
use node_red_contrib_pod_gat.Result.{ok, throws}
use node_red_contrib_pod_gat.Json.{str, end, Fields, lookup}
use node_red_contrib_pod_gat.Gateway.Timing.{execution_timeout}
use node_red_contrib_pod_gat.Gateway.Health.{check_claim_idle_margin}
use node_red_contrib_pod_gat.Gateway.Tests.{config}
use node_red_contrib_pod_gat.Gateway.Examples.{item}
use node_red_contrib_pod_gat.Configuration.Env.{
  load_dot_env, is_name_start, is_name_part, is_terminator,
}
use node_red_contrib_pod_gat.Configuration.Dotenv.{
  IsEntry, Entries, print_all, define_all, load_dot_env-print,
}
use node_red_contrib_pod_gat.Configuration.Margin.{claim_idle_of, claim_idle_of-quiet}
use node_red_contrib_pod_gat.Configuration.Runtime.{
  read_json_if_present, whole, is_integer, below_one, number, positive_integer, boolean,
  text_setting, parse_json_object, load_json_env,
}
use node_red_contrib_pod_gat.Configuration.Runtime.Settings.{
  Settings, Conversions, HasSources, settings_of, load_gateway_config,
  load_gateway_config-HasSources,
}

abbrev env : Map Text Text
env = (codes "PORT", codes "90") ∷ []

port_test : get env (codes "PORT") ≡ some (codes "90")
unfolding get
port_test = refl

abbrev variables : Entries
variables = (b'P', codes "ORT", codes "1") ∷ (b'T', codes "OKEN", codes " a\"b ") ∷ []

variables-IsEntry : All (λ e. IsEntry e.0 e.1 e.2) variables
unfolding is_name_start is_name_part is_terminator
variables-IsEntry = (
  record { starts = refl; continues = refl; one_line = refl },
  (record { starts = refl; continues = refl; one_line = refl }, tt),
)

load_dot_env-print_example :
    load_dot_env (some (print_all variables)) env ≡ (define_all env variables, true)
load_dot_env-print_example = load_dot_env-print variables env variables-IsEntry

claim_idle_of-quiet_example :
    (execution_timeout config item 12 ≤ claim_idle_of (some 60000))
    × (check_claim_idle_margin
          (some (claim_idle_of (some 60000)))
          []
          item.operation.value
          (execution_timeout config item 12)
        ≡ ([], false))
claim_idle_of-quiet_example = claim_idle_of-quiet config (some 60000) item 12 [] refl (omega arith)

-- Decimal digits, and nothing else.
abbrev digits : ℕ → Text → Option ℕ
digits n [] = some n
digits n (c ∷ s) = digits (n * 10 + (c - 48)) s

abbrev conversions : Conversions
conversions = record {
  to_number = λ x. elim x [ str t ↦ Option.map whole (digits 0 t) | _ ↦ none ];
  parse = λ t. throws (codes "Unexpected end of JSON input");
}

abbrev loaded : Settings
loaded = record {
  url = str (codes "redis://127.0.0.1:6379");
  key_prefix = str (codes "pod-gateway");
  max_queue_size = whole 10000;
  result_ttl_seconds = whole 3600;
  delete_on_ack = true;
  retry_poll_ms = whole 250;
  port = whole 90;
  concurrency = whole 32;
  token = str [];
  rate_limits = end;
  base_url = str [];
  path = str (codes "/");
  method = str (codes "GET");
  api_key = str [];
  api_key_header = str (codes "Authorization");
  api_key_prefix = str (codes "Bearer ");
  rate = whole 50;
  burst = whole 1;
}

loads : load_gateway_config conversions env none (codes "gateway.config.json") none ≡ ok loaded
unfolding load_gateway_config settings_of read_json_if_present load_dot_env number positive_integer
    is_integer below_one boolean text_setting parse_json_object load_json_env get lookup
loads = refl

load_gateway_config-HasSources_example :
    (fields : Fields) × (read_json_if_present conversions.parse (codes "gateway.config.json") none
      ≡ ok fields)
    × HasSources conversions (load_dot_env none env).0 fields loaded
load_gateway_config-HasSources_example =
    load_gateway_config-HasSources conversions env none (codes "gateway.config.json") none loaded
      loads

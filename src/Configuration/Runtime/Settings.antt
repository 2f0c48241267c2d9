-- ===== src/Configuration/Runtime/Settings.antt =====
-- `loadGatewayConfig`, and where each of its numbers comes from.
use node_red_contrib_pod_gat.Prelude.{
  ◌≡◌, ◌||◌, not, refl, sym, ap, subst, Bool, true, false, Option, none, some, [], ◌∷◌, Text,
  text_eq, codes, nonempty, Bool-cases, inl, inr,
}
use node_red_contrib_pod_gat.Map.{Map, get}
use node_red_contrib_pod_gat.Result.{Result, ok, throws, ◌>>=◌, >>=-eq-ok}
use node_red_contrib_pod_gat.Json.{Value, null, bool, num, str, arr, obj, Fields, end, lookup}
use node_red_contrib_pod_gat.Configuration.Env.{load_dot_env}
use node_red_contrib_pod_gat.Configuration.Runtime.Numbers.{IsPositive, tested-IsPositive}
use node_red_contrib_pod_gat.Configuration.Runtime.{
  is_blank, text_setting, boolean, section, parse_json_object, load_json_env, read_json_if_present,
  Number, whole, is_integer, below_one, number, positive_integer,
}

-- The settings.
pub record Settings : Type 0 where
  pub url : Value
  pub key_prefix : Value
  pub max_queue_size : Number
  pub result_ttl_seconds : Number
  pub delete_on_ack : Bool
  pub retry_poll_ms : Number
  pub port : Number
  pub concurrency : Number
  pub token : Value
  pub rate_limits : Fields
  pub base_url : Value
  pub path : Value
  pub method : Value
  pub api_key : Value
  pub api_key_header : Value
  pub api_key_prefix : Value
  pub rate : Number
  pub burst : Number

-- `Number` and `JSON.parse`.
pub record Conversions : Type 0 where
  pub to_number : Value → Option Number
  pub parse : Text → Result Value

module _ (v : Conversions) where
  -- Of the environment and the file, behind `loadDotEnv`.
  unfoldable pub settings_of : Map Text Text → Fields → Result Settings
  settings_of env file =
      let redis = section (lookup (codes "redis") file) in
      let server = section (lookup (codes "server") file) in
      let auth = section (lookup (codes "auth") file) in
      let upstream = section (lookup (codes "upstream") file) in
      let var : Text → Option Text = λ name. get env name in
      do
        max_queue_size ←
            number v.to_number (var (codes "GATEWAY_MAX_QUEUE"))
              (lookup (codes "maxQueueSize") redis) (whole 10000)
        result_ttl_seconds ←
            positive_integer v.to_number (var (codes "REDIS_RESULT_TTL_SECONDS"))
              (lookup (codes "resultTtlSeconds") redis) (whole 3600)
        delete_on_ack ←
            boolean (var (codes "REDIS_DELETE_ON_ACK")) (lookup (codes "deleteOnAck") redis) true
        retry_poll_ms ←
            positive_integer v.to_number (var (codes "REDIS_RETRY_POLL_MS"))
              (lookup (codes "retryPollMs") redis) (whole 250)
        port ← number v.to_number (var (codes "PORT")) (lookup (codes "port") server) (whole 8080)
        concurrency ←
            number v.to_number (var (codes "GATEWAY_CONCURRENCY"))
              (lookup (codes "concurrency") server) (whole 32)
        from_file ←
            parse_json_object v.parse (lookup (codes "rateLimits") file) end (codes "rateLimits")
        rate_limits ← load_json_env v.parse (var (codes "GATEWAY_RATE_LIMITS")) from_file
        rate ←
            number v.to_number (var (codes "UPSTREAM_RATE")) (lookup (codes "rate") upstream)
              (whole 50)
        burst ←
            number v.to_number (var (codes "UPSTREAM_BURST")) (lookup (codes "burst") upstream)
              (whole 1)
        ok (record {
          url =
              text_setting (var (codes "REDIS_URL")) (lookup (codes "url") redis)
                (codes "redis://127.0.0.1:6379");
          key_prefix =
              text_setting (var (codes "REDIS_KEY_PREFIX")) (lookup (codes "keyPrefix") redis)
                (codes "pod-gateway");
          max_queue_size = max_queue_size;
          result_ttl_seconds = result_ttl_seconds;
          delete_on_ack = delete_on_ack;
          retry_poll_ms = retry_poll_ms;
          port = port;
          concurrency = concurrency;
          token = text_setting (var (codes "GATEWAY_TOKEN")) (lookup (codes "token") auth) [];
          rate_limits = rate_limits;
          base_url =
              text_setting (var (codes "UPSTREAM_BASE_URL")) (lookup (codes "baseUrl") upstream) [];
          path =
              text_setting (var (codes "UPSTREAM_PATH")) (lookup (codes "path") upstream)
                (codes "/");
          method =
              text_setting (var (codes "UPSTREAM_METHOD")) (lookup (codes "method") upstream)
                (codes "GET");
          api_key =
              text_setting (var (codes "UPSTREAM_API_KEY")) (lookup (codes "apiKey") upstream) [];
          api_key_header =
              text_setting (var (codes "UPSTREAM_API_KEY_HEADER"))
                (lookup (codes "apiKeyHeader") upstream) (codes "Authorization");
          api_key_prefix =
              text_setting (var (codes "UPSTREAM_API_KEY_PREFIX"))
                (lookup (codes "apiKeyPrefix") upstream) (codes "Bearer ");
          rate = rate;
          burst = burst;
        })

  -- `loadGatewayConfig`: the content of the `.env` file, and the name and the content of the file.
  unfoldable pub load_gateway_config :
      Map Text Text → Option Text → Text → Option Text → Result Settings
  load_gateway_config env dot_env file content = do
    fields ← read_json_if_present v.parse file content
    settings_of (load_dot_env dot_env env).0 fields

module _ (v : Conversions) where
  -- Where a number comes from: a variable that is not empty, the file where there is no variable, or the
  -- default where the one that is asked is empty or missing.
  pub data Comes (env : Option Text) (file : Option Value) (fallback : Number) (n : Number)
      : Type 0 where
    from_env :
        (t : Text)
        → env ≡ some t
        → nonempty t ≡ true
        → v.to_number (str t) ≡ some n
        → Comes env file fallback n
    from_file :
        (x : Value)
        → env ≡ none
        → file ≡ some x
        → is_blank x ≡ false
        → v.to_number x ≡ some n
        → Comes env file fallback n
    empty_env : env ≡ some [] → n ≡ fallback → Comes env file fallback n
    missing : env ≡ none → file ≡ none → n ≡ fallback → Comes env file fallback n
    empty_file : env ≡ none → file ≡ some (str []) → n ≡ fallback → Comes env file fallback n

  same : {a b : Number} → ok a ≡ ok b → b ≡ a
  same h = cc h

  blank : (x : Value) → is_blank x ≡ true → x ≡ str []
  blank (str []) e = refl
  blank (str (c ∷ t)) e = absurd (cc e)
  blank null e = absurd (cc e)
  blank (bool b) e = absurd (cc e)
  blank (num t) e = absurd (cc e)
  blank (arr vs) e = absurd (cc e)
  blank (obj fs) e = absurd (cc e)

  converted :
      (o : Option Number) (message : Text) (n : Number)
      → elim o [ none ↦ throws message | some k ↦ ok k ] ≡ ok n
      → o ≡ some n
  converted none message n h = absurd (cc h)
  converted (some k) message n h = cc h

  number-Comes :
      (env : Option Text) (file : Option Value) (fallback n : Number)
      → number v.to_number env file fallback ≡ ok n
      → Comes env file fallback n
  unfolding number
  number-Comes none none fallback n h = missing refl refl (same h)
  number-Comes none (some x) fallback n h = elim (Bool-cases (is_blank x)) [
    | inl e ↦ empty_file refl (ap some (blank x e)) (same (rw e at h))
    | inr e ↦ from_file x refl refl e (converted (v.to_number x) _ n (rw e at h))
  ]
  number-Comes (some []) file fallback n h = empty_env refl (same h)
  number-Comes (some (c ∷ t)) file fallback n h =
      from_env (c ∷ t) refl refl (converted (v.to_number (str (c ∷ t))) _ n h)

  positive_integer-Comes :
      (env : Option Text) (file : Option Value) (fallback n : Number)
      → positive_integer v.to_number env file fallback ≡ ok n
      → Comes env file fallback n × IsPositive n
  unfolding positive_integer
  positive_integer-Comes env file fallback n h =
      let (found, here, rest) = >>=-eq-ok (number v.to_number env file fallback) _ h in
      elim (Bool-cases (not (is_integer found) || below_one found)) [
        | inr e ↦
            let it : found ≡ n = sym (same (rw e at rest)) in
            subst (λ k. Comes env file fallback k × IsPositive k) it
              (number-Comes env file fallback found here, tested-IsPositive found e)
        | inl e ↦ absurd (cc (rw e at rest))
      ]

  -- The source of each number of the settings.
  abbrev pub HasSources : Map Text Text → Fields → Settings → Type 0
  HasSources env file c =
      let redis = section (lookup (codes "redis") file) in
      let server = section (lookup (codes "server") file) in
      let upstream = section (lookup (codes "upstream") file) in
      Comes (get env (codes "GATEWAY_MAX_QUEUE")) (lookup (codes "maxQueueSize") redis)
        (whole 10000) c.max_queue_size
      × Comes (get env (codes "REDIS_RESULT_TTL_SECONDS")) (lookup (codes "resultTtlSeconds") redis)
          (whole 3600) c.result_ttl_seconds
      × IsPositive c.result_ttl_seconds
      × Comes (get env (codes "REDIS_RETRY_POLL_MS")) (lookup (codes "retryPollMs") redis)
          (whole 250) c.retry_poll_ms
      × IsPositive c.retry_poll_ms
      × Comes (get env (codes "PORT")) (lookup (codes "port") server) (whole 8080) c.port
      × Comes (get env (codes "GATEWAY_CONCURRENCY")) (lookup (codes "concurrency") server)
          (whole 32) c.concurrency
      × Comes (get env (codes "UPSTREAM_RATE")) (lookup (codes "rate") upstream) (whole 50) c.rate
      × Comes (get env (codes "UPSTREAM_BURST")) (lookup (codes "burst") upstream) (whole 1) c.burst

  settings_of-HasSources :
      (env : Map Text Text) (file : Fields) (c : Settings)
      → settings_of v env file ≡ ok c
      → HasSources env file c
  unfolding settings_of
  settings_of-HasSources env file c h =
      let (queue_size, h1, r1) =
        >>=-eq-ok
          (number v.to_number (get env (codes "GATEWAY_MAX_QUEUE"))
            (lookup (codes "maxQueueSize") (section (lookup (codes "redis") file))) (whole 10000))
          _ h in
      let (ttl, h2, r2) =
        >>=-eq-ok
          (positive_integer v.to_number (get env (codes "REDIS_RESULT_TTL_SECONDS"))
            (lookup (codes "resultTtlSeconds") (section (lookup (codes "redis") file)))
            (whole 3600))
          _ r1 in
      let (ack, h3, r3) =
        >>=-eq-ok
          (boolean (get env (codes "REDIS_DELETE_ON_ACK"))
            (lookup (codes "deleteOnAck") (section (lookup (codes "redis") file))) true)
          _ r2 in
      let (poll, h4, r4) =
        >>=-eq-ok
          (positive_integer v.to_number (get env (codes "REDIS_RETRY_POLL_MS"))
            (lookup (codes "retryPollMs") (section (lookup (codes "redis") file))) (whole 250))
          _ r3 in
      let (port, h5, r5) =
        >>=-eq-ok
          (number v.to_number (get env (codes "PORT"))
            (lookup (codes "port") (section (lookup (codes "server") file))) (whole 8080))
          _ r4 in
      let (concurrency, h6, r6) =
        >>=-eq-ok
          (number v.to_number (get env (codes "GATEWAY_CONCURRENCY"))
            (lookup (codes "concurrency") (section (lookup (codes "server") file))) (whole 32))
          _ r5 in
      let (base_limits, h7, r7) =
        >>=-eq-ok
          (parse_json_object v.parse (lookup (codes "rateLimits") file) end (codes "rateLimits")) _
          r6 in
      let (limits, h8, r8) =
        >>=-eq-ok (load_json_env v.parse (get env (codes "GATEWAY_RATE_LIMITS")) base_limits) _
          r7 in
      let (rate, h9, r9) =
        >>=-eq-ok
          (number v.to_number (get env (codes "UPSTREAM_RATE"))
            (lookup (codes "rate") (section (lookup (codes "upstream") file))) (whole 50))
          _ r8 in
      let (burst, h10, r10) =
        >>=-eq-ok
          (number v.to_number (get env (codes "UPSTREAM_BURST"))
            (lookup (codes "burst") (section (lookup (codes "upstream") file))) (whole 1))
          _ r9 in
      let p2 = positive_integer-Comes _ _ _ ttl h2 in
      let p4 = positive_integer-Comes _ _ _ poll h4 in
      subst (HasSources env file) (sym (given r10)) (
        number-Comes _ _ _ queue_size h1,
        p2.0,
        p2.1,
        p4.0,
        p4.1,
        number-Comes _ _ _ port h5,
        number-Comes _ _ _ concurrency h6,
        number-Comes _ _ _ rate h9,
        number-Comes _ _ _ burst h10,
      )
    where
      given : {a b : Settings} → ok a ≡ ok b → b ≡ a
      given e = cc e

  -- When a configuration is loaded, each of its numbers comes from the variable of the environment, if it
  -- is set and not empty; from the file, if there is no variable; and else it is the default. The
  -- environment is that with the `.env` file read. A variable that is empty hides the file's number. The
  -- times are 1, 2, 3 and so on.
  pub load_gateway_config-HasSources :
      (env : Map Text Text) (dot_env : Option Text) (file : Text) (content : Option Text)
      (c : Settings)
      → load_gateway_config v env dot_env file content ≡ ok c
      → (fields : Fields) × (read_json_if_present v.parse file content ≡ ok fields)
        × HasSources (load_dot_env dot_env env).0 fields c
  unfolding load_gateway_config
  load_gateway_config-HasSources env dot_env file content c h =
      let (fields, found, rest) = >>=-eq-ok (read_json_if_present v.parse file content) _ h in
      (fields, found, settings_of-HasSources (load_dot_env dot_env env).0 fields c rest)

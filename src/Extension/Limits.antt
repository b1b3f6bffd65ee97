-- ===== src/Extension/Limits.antt =====
-- The ranges of what the environment and the conversions give.
use afsim_ns.Base.{
  ℕ, ◌≤◌, ◌≡◌, refl, false, Bytes, codes, Result, ok, err, Result-cases, arith, Bool-cases,
  Option-cases, inl, inr, List-cases, [],
}
use afsim_ns.Double.{Double, Laws, fmin, at_least}
use afsim_ns.Double.Math.{Math, CastLaws}
use afsim_ns.Delta.{is_empty}
use afsim_ns.Runner.{stoull}
use afsim_ns.Tcp.{new_client, Client, TcpClientConfig, ConfigError}
use afsim_ns.Controller.{AfsimBridgeController, new_controller}
use afsim_ns.Extension.Config.{
  Environment, environment_text, environment_uint32, environment_uint64, max, min, uint32_max,
  RuntimeConfig, runtime_config, milliseconds,
}
use afsim_ns.Extension.State.{Extension, with_controller, client_config, new_extension}

pub max_ge : (a b : ℕ) → a ≤ max a b
unfolding max
max_ge a b = ground arith

max_le : (a b c : ℕ) → a ≤ c → b ≤ c → max a b ≤ c
unfolding max
max_le a b c h k = ground arith

environment_uint32_ge :
    (env : Environment) (name : Bytes) (fallback minimum : ℕ)
    → minimum ≤ fallback
    → minimum ≤ environment_uint32 env name fallback minimum
unfolding environment_uint32
environment_uint32_ge env name fallback minimum h =
    elim (Option-cases (stoull (environment_text env name []))) [
      | inl e ↦ rw (e, environment_uint32) h
      | inr (parsed, e) ↦ rw (e, environment_uint32) (ground (arith, max_ge minimum parsed))
    ]

environment_uint64_ge :
    (env : Environment) (name : Bytes) (fallback minimum : ℕ)
    → minimum ≤ fallback
    → minimum ≤ environment_uint64 env name fallback minimum
unfolding environment_uint64
environment_uint64_ge env name fallback minimum h =
    elim (Option-cases (stoull (environment_text env name []))) [
      | inl e ↦ rw (e, environment_uint64) h
      | inr (parsed, e) ↦ rw (e, environment_uint64) (ground (arith, max_ge minimum parsed))
    ]

-- The head of a text that is not empty is there.
environment_text-filled :
    (env : Environment) (name fallback : Bytes)
    → is_empty fallback ≡ false
    → is_empty (environment_text env name fallback) ≡ false
unfolding environment_text
environment_text-filled env name fallback h = elim (Option-cases (env name)) [
  | inl e ↦ rw (e, environment_text) h
  | inr (value, e) ↦ rw (e, environment_text) (ground arith)
]

new_client-made :
    (c : TcpClientConfig)
    → is_empty c.host ≡ false
    → 1 ≤ c.port
    → 1 ≤ c.max_pending_messages
    → (client : Client) × (new_client c ≡ ok client)
unfolding new_client is_empty
new_client-made c h p n = elim (Result-cases (new_client c)) [
  | inl made ↦ made
  | inr (e, q) ↦ elim (List-cases c.host) [
    | inl a ↦ ground (arith, h, a)
    | inr (x, rest, b) ↦ ground (arith, q, b, p, n)
  ]
]

made-config :
    (d : Double) (config : RuntimeConfig d) (run_id : Bytes)
    (r : Result ConfigError (AfsimBridgeController d))
    → (c : AfsimBridgeController d) × (r ≡ ok c)
    → (ext : Extension d) × (with_controller d config run_id r ≡ ok ext) × (ext.config ≡ config)
unfolding with_controller
made-config d config run_id (ok c) h = (_, refl, refl)
made-config d config run_id (err e) (c, h) = cc

new_controller-made :
    (d : Double) (c : TcpClientConfig)
    → (client : Client) × (new_client c ≡ ok client)
    → (made : AfsimBridgeController d) × (new_controller d c ≡ ok made)
unfolding new_controller
new_controller-made d c (client, e) = elim (Result-cases (new_controller d c)) [
  | inl made ↦ made
  | inr (x, q) ↦ ground (arith, q, e)
]

module _ (d : Double) (m : Math d) where
  open d use {F, less}

  milliseconds_ge :
      (seconds : F) (minimum : ℕ)
      → minimum ≤ uint32_max
      → minimum ≤ milliseconds d m seconds minimum
  unfolding milliseconds
  milliseconds_ge seconds minimum h =
      elim (Bool-cases (d.is_finite (d.times seconds (d.of_uint64 1000)))) [
        | inr e ↦ rw (e, milliseconds) (omega arith)
        | inl e ↦ rw (e, milliseconds) (ground (arith, max_ge minimum))
      ]

  module _ (laws : CastLaws d m) where
    milliseconds_le :
        (seconds : F) (minimum : ℕ)
        → minimum ≤ uint32_max
        → milliseconds d m seconds minimum ≤ uint32_max
    unfolding milliseconds
    milliseconds_le seconds minimum h =
        let value = d.times seconds (d.of_uint64 1000) in
        elim (Bool-cases (d.is_finite value)) [
          | inr e ↦ rw (e, milliseconds) h
          | inl e ↦ elim (Bool-cases (at_least d value (d.of_uint64 uint32_max))) [
            | inl b ↦ rw (e, b, milliseconds) (omega arith)
            | inr b ↦
                rw (e, b, milliseconds)
                  (max_le minimum _ uint32_max h (laws.cast_le uint32_max value (omega arith) e b))
          ]
        ]

    -- Both limits of a time in milliseconds.
    pub milliseconds_bounds :
        (seconds : F) (minimum : ℕ)
        → minimum ≤ uint32_max
        → (minimum ≤ milliseconds d m seconds minimum)
          × (milliseconds d m seconds minimum ≤ uint32_max)
    milliseconds_bounds seconds minimum h =
        (milliseconds_ge seconds minimum h, milliseconds_le seconds minimum h)

  pub fmin-upper : Laws d → (a : F) → less d.unit (fmin d d.unit a) ≡ false
  fmin-upper laws a = ground (arith, laws.irrefl d.unit, laws.trans d.unit a d.unit)

  -- What the environment configures, whatever its variables hold: a host that is not empty, a port
  -- from 1 to 65535, a data rate that is not 0, and a loss rate that is not above 1.0.
  pub record InLimits (c : RuntimeConfig d) : Type 0 where
    pub host : is_empty c.host ≡ false
    pub port_lower : 1 ≤ c.port
    pub port_upper : c.port ≤ 65535
    pub data_rate : 1 ≤ c.default_data_rate_bps
    pub loss_rate : less d.unit c.default_loss_rate ≡ false

  pub runtime_config-InLimits : Laws d → (env : Environment) → InLimits (runtime_config d m env)
  unfolding runtime_config min
  runtime_config-InLimits laws env = record {
    host = environment_text-filled env (codes "AFSIM_NS3_HOST") (codes "127.0.0.1") refl;
    port_lower =
        ground (arith, environment_uint32_ge env (codes "AFSIM_NS3_PORT") 18080 1 (omega arith));
    port_upper = ground arith;
    data_rate = environment_uint64_ge env (codes "AFSIM_NS3_DATA_RATE_BPS") 1000000 1 (omega arith);
    loss_rate = fmin-upper laws _;
  }

  -- Where doubles obey the laws: whatever the environment holds, the plugin is constructed, since
  -- the controller never refuses the configuration, and that configuration is within its limits.
  pub new_extension_lem :
      Laws d
      → (env : Environment) (run_id : Bytes)
      → (ext : Extension d) × (new_extension d m env run_id ≡ ok ext) × InLimits ext.config
  unfolding new_extension client_config
  new_extension_lem laws env run_id =
      let h = runtime_config-InLimits laws env in
      let config = client_config d (runtime_config d m env) in
      let client = new_client-made config h.host h.port_lower (omega arith) in
      let (ext, e, same) =
        made-config d (runtime_config d m env) run_id (new_controller d config)
          (new_controller-made d config client) in
      (ext, e, rw same h)

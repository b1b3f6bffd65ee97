-- ===== src/Extension/Config.antt =====
-- The environment variables, and the conversions of angles and times.
use afsim_ns.Base.{
  ℕ, zero, suc, ◌+◌, ◌-◌, ◌^◌, Bool, true, false, ◌&&◌, ◌||◌, [], map, Bytes, codes, Option, none,
  some, ltb, leb, if◌then◌else◌, equals, bytes_ord, cmp_bytes,
}
use afsim_ns.Double.{Double, fmax, fmin, at_least}
use afsim_ns.Double.Math.{Math}
use afsim_ns.Delta.{is_empty}
use afsim_ns.Runner.{stoull}

-- `std::getenv`
abbrev pub Environment : Type 0
Environment = Bytes → Option Bytes

unfoldable pub environment_has_value : Environment → Bytes → Bool
unfolding is_empty
environment_has_value env name = elim (env name) [
  | none ↦ false
  | some value ↦ elim (is_empty value) [ true ↦ false | false ↦ true ]
]

unfoldable pub environment_text : Environment → Bytes → Bytes → Bytes
unfolding is_empty
environment_text env name fallback = elim (env name) [
  | none ↦ fallback
  | some value ↦ if is_empty value then fallback else value
]

unfoldable pub max : ℕ → ℕ → ℕ
max a b = if ltb a b then b else a

unfoldable pub min : ℕ → ℕ → ℕ
min a b = if ltb b a then b else a

abbrev pub uint32_max : ℕ
uint32_max = 2 ^ 32 - 1

unfoldable pub environment_uint32 : Environment → Bytes → ℕ → ℕ → ℕ
unfolding environment_text stoull max
environment_uint32 env name fallback minimum = elim (stoull (environment_text env name [])) [
  | none ↦ fallback
  | some parsed ↦ if ltb uint32_max parsed then fallback else max minimum parsed
]

unfoldable pub environment_uint64 : Environment → Bytes → ℕ → ℕ → ℕ
unfolding environment_text stoull max
environment_uint64 env name fallback minimum = elim (stoull (environment_text env name [])) [
  | none ↦ fallback
  | some parsed ↦ max minimum parsed
]

-- `std::tolower` in the "C" locale
unfoldable pub to_lower : ℕ → ℕ
to_lower c = if leb b'A' c && leb c b'Z' then c + 32 else c

unfoldable pub environment_flag : Environment → Bytes → Bool → Bool
unfolding environment_text to_lower cmp_bytes
environment_flag env name fallback =
    let value =
      map to_lower (environment_text env name (if fallback then codes "1" else codes "0")) in
    equals value (codes "1")
    || equals value (codes "true")
    || equals value (codes "yes")
    || equals value (codes "on")

module _ (d : Double) where
  open d use {F, less, times, divide, of_uint64}

  -- What is read of the text is the number at its head.
  unfoldable pub environment_double : Environment → Bytes → F → F → F
  unfolding environment_text
  environment_double env name fallback minimum = elim (d.parse (environment_text env name [])) [
    | none ↦ fallback
    | some (value, count) ↦ fmax d minimum value
  ]

  pub record RuntimeConfig : Type 0 where
    pub host : Bytes
    pub port : ℕ
    pub interval_seconds : F
    pub default_data_rate_bps : ℕ
    pub default_delay_ms : F
    pub delay_override : Bool
    pub default_loss_rate : F
    pub loss_override : Bool
    pub link_kind : Bytes
    pub trace_ticks : Bool

  module _ (m : Math d) where
    unfoldable pub runtime_config : Environment → RuntimeConfig
    unfolding environment_text environment_uint32 environment_uint64 environment_double
        environment_flag environment_has_value min
    runtime_config env = record {
      host = environment_text env (codes "AFSIM_NS3_HOST") (codes "127.0.0.1");
      port = min 65535 (environment_uint32 env (codes "AFSIM_NS3_PORT") 18080 1);
      interval_seconds =
          environment_double env (codes "AFSIM_NS3_INTERVAL_SECONDS") d.unit m.twentieth;
      default_data_rate_bps = environment_uint64 env (codes "AFSIM_NS3_DATA_RATE_BPS") 1000000 1;
      default_delay_ms = environment_double env (codes "AFSIM_NS3_DELAY_MS") d.unit d.nought;
      delay_override = environment_has_value env (codes "AFSIM_NS3_DELAY_MS");
      default_loss_rate =
          fmin d d.unit (environment_double env (codes "AFSIM_NS3_LOSS_RATE") d.nought d.nought);
      loss_override = environment_has_value env (codes "AFSIM_NS3_LOSS_RATE");
      link_kind = environment_text env (codes "AFSIM_NS3_LINK_KIND") (codes "wireless");
      trace_ticks = environment_flag env (codes "AFSIM_NS3_TRACE_TICKS") false;
    }

    -- The two loops of `Degrees`, for at most the given number of rounds.
    unfoldable pub raise : ℕ → F → Option F
    raise zero value = none
    raise (suc rounds) value =
        let rest = raise rounds (m.plus value (of_uint64 360)) in
        if less value d.nought then rest else some value

    unfoldable pub lower : ℕ → F → Option F
    lower zero value = none
    lower (suc rounds) value =
        let rest = lower rounds (m.minus value (of_uint64 360)) in
        if at_least d value (of_uint64 360) then rest else some value

    unfoldable pub degrees : ℕ → F → Option F
    unfolding raise lower
    degrees rounds radians = elim (raise rounds (divide (times radians (of_uint64 180)) m.pi)) [
      | none ↦ none
      | some value ↦ lower rounds value
    ]

    unfoldable pub milliseconds : F → ℕ → ℕ
    unfolding max
    milliseconds seconds minimum =
        let milliseconds = times seconds (of_uint64 1000) in
        elim (d.is_finite milliseconds) [
          | false ↦ minimum
          | true ↦
              if at_least d milliseconds (of_uint64 uint32_max)
              then uint32_max
              else max minimum (m.to_uint64 (fmax d d.nought (m.round milliseconds)))
        ]

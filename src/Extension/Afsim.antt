-- ===== src/Extension/Afsim.antt =====
-- What the plugin asks AFSIM, at one moment. A pointer that is not null is an address.
use afsim_ns.Base.{ℕ, Bool, List, Bytes, Option}
use afsim_ns.Base.Int.{ℤ}
use afsim_ns.Double.{Double}

abbrev pub Comm : Type 0
Comm = ℕ

abbrev pub Platform : Type 0
Platform = ℕ

-- `GetMediumIdentifier`
pub data Medium : Type 0 where
  guided unguided other_medium : Medium

-- `WsfMessage`, with the texts of its type and subtype.
pub record Message : Type 0 where
  pub serial_number : ℕ
  pub destination : Bytes
  pub message_type : Bytes
  pub sub_type : Bytes
  pub size_bits : ℤ
  pub size_bytes : ℤ

-- A status of interactions: the bit `cSIGNAL_LEVEL`, and the number that the other bits make.
pub record Status : Type 0 where
  pub signal_level : Bool
  pub others : ℕ

pub data DisconnectReason : Type 0 where
  unknown_error no_router_bridge signal_level_insufficient link_connected : DisconnectReason
  other_reason : ℕ → DisconnectReason

module _ (d : Double) where
  -- `wsf::comm::Result`
  pub record Result : Type 0 where
    pub data_rate : d.F
    pub checked_status : Status
    pub failed_status : Status
    pub disconnect_reason : DisconnectReason
    pub disconnect_text : Bytes

  pub record Simulation : Type 0 where
    -- `GetPlatformEntry` from 0 to `GetPlatformCount() - 1`
    pub platform_entries : List (Option Platform)
    pub platform_name : Platform → Bytes
    pub platform_index : Platform → ℕ
    pub is_broken : Platform → Bool
    pub is_deleted : Platform → Bool
    pub location_lla : Platform → d.F × (d.F × d.F)
    pub velocity_ned : Platform → d.F × (d.F × d.F)
    -- the heading of `GetOrientationNED`
    pub heading : Platform → d.F
    pub relative_location_wcs : Platform → Platform → d.F × (d.F × d.F)
    -- `GetComponentEntry<Comm>` from 0
    pub comm_entries : Platform → List (Option Comm)
    pub comm_name : Comm → Bytes
    pub comm_platform : Comm → Option Platform
    pub network : Comm → Bytes
    pub link_pairs : Comm → List (Bytes × Bytes)
    pub is_turned_on : Comm → Bool
    pub can_send : Comm → Bool
    pub can_receive : Comm → Bool
    -- `GetStats().mLastDataRate`
    pub last_data_rate : Comm → d.F
    -- a draw of `GetTransferRate` of the physical layer, if the comm has one
    pub transfer_rate : Comm → Option d.F
    -- the medium of the container component
    pub medium : Comm → Option Medium
    -- the last draws of the delay and of the speed in the current mode, if it is a `ModeGuided`
    pub current_mode : Comm → Option (d.F × d.F)
    -- `GetComm` of the network manager, null also where there is no manager
    pub comm_at : Bytes → Option Comm

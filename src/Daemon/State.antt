-- ===== src/Daemon/State.antt =====
-- The state of `Daemon` of daemon/src/main.cpp, with its clients and buses. A client is named by its
-- place in `clients_`, as the source holds a reference to the element; it is closed once its
-- descriptor is -1. Group and user names are resolved to numbers, the configured numbers are kept
-- sorted, and a search for one of them is a membership test.
use mathlib.Core.Option
use ec_systemcore.Base.{
  ℕ, ◌==◌, ◌&&◌, ◌||◌, ◌+◌, ◌*◌, ◌^◌, Bool, false, not, List, [], ◌∷◌, Option, none, some, get_or,
  set, if◌then◌else◌, replicate, ltb,
}
use ec_systemcore.Protocol.Enums.{ClientRole}
use ec_systemcore.Protocol.Frame.{FrameDecoder, DecodeError}
use ec_systemcore.Safety.Gate.{SafetyGate}
use ec_systemcore.Adapter.Identity.{AdapterResolution}
use ec_systemcore.Daemon.Bus.{Bus}

-- `kCapabilities`, and without `CapabilityOutputs`
abbrev pub all_capabilities : ℕ
all_capabilities = 15

abbrev pub capabilities_without_outputs : ℕ
capabilities_without_outputs = 14

-- `kMaximumBuses`, `kMaximumClientOutputBytes`
abbrev pub maximum_buses : ℕ
maximum_buses = 8

abbrev pub maximum_client_output_bytes : ℕ
maximum_client_output_bytes = 2 * 1024 * 1024

-- The tokens of the rate limit are a `double` in the source; here they are counted exactly, in
-- billionths, and time points are nanoseconds of the steady clock.
pub record ClientConnection : Type 0 where
  pub is_connected : Bool
  pub id : ℕ
  pub pid : ℕ
  pub uid : ℕ
  pub peer_groups : List ℕ
  pub hello_received : Bool
  pub role : ClientRole
  pub subscribe_inputs : Bool
  pub input_period_ms : ℕ
  pub last_input_sequence : List ℕ
  pub selected_input_sequence : List ℕ
  pub decoder : FrameDecoder
  pub outgoing : List (List ℕ)
  pub outgoing_offset : ℕ
  pub outgoing_bytes : ℕ
  pub close_after_write : Bool
  pub rate_updated : ℕ
  pub rate_tokens : ℕ
  pub rate_capacity : ℕ
  pub rate_refill_per_second : ℕ
  pub optional_queue_drops : ℕ
  pub first_optional_drop : ℕ

pub record AdapterRuntime : Type 0 where
  pub resolution : AdapterResolution
  pub runtime_unlocked : Bool
  pub observed_fault_sequence : ℕ

-- The part of the configuration that the session reads; for each interface the expected output bytes
-- of its SubDevices, where they are given.
pub record DaemonConfig : Type 0 where
  pub controller_uids : List ℕ
  pub controller_gids : List ℕ
  pub heartbeat_timeout_ms : ℕ
  pub output_command_timeout_ms : ℕ
  pub expected_output_bytes : List (List (Option ℕ))

pub record Daemon : Type 0 where
  pub configuration : DaemonConfig
  pub safety : SafetyGate
  pub clients : List ClientConnection
  pub buses : List Bus
  pub adapters : List AdapterRuntime
  pub global_faulted_epoch : ℕ
  pub force_adapter_scan : Bool
  pub next_observer_rescan_allowed : ℕ

-- What stands where no client is.
abbrev pub no_client : ClientConnection
no_client = record {
  is_connected = false;
  id = 0;
  pid = 0;
  uid = 0;
  peer_groups = [];
  hello_received = false;
  role = ClientRole.observer;
  subscribe_inputs = false;
  input_period_ms = 100;
  last_input_sequence = replicate maximum_buses 0;
  selected_input_sequence = replicate maximum_buses 0;
  decoder = record { buffer = []; error = DecodeError.no_error };
  outgoing = [];
  outgoing_offset = 0;
  outgoing_bytes = 0;
  close_after_write = false;
  rate_updated = 0;
  rate_tokens = 500 * 10 ^ 9;
  rate_capacity = 500;
  rate_refill_per_second = 1000;
  optional_queue_drops = 0;
  first_optional_drop = 0;
}

abbrev pub client_at : Daemon → ℕ → ClientConnection
client_at d i = get_or d.clients i no_client

abbrev pub with_client : Daemon → ℕ → ClientConnection → Daemon
with_client d i c = record d { clients = set d.clients i c }

-- `std::find` and `std::binary_search` for a number.
pub contains : List ℕ → ℕ → Bool
contains [] n = false
contains (m ∷ rest) n = m == n || contains rest n

pub any_contained : List ℕ → List ℕ → Bool
any_contained [] known = false
any_contained (n ∷ rest) known = contains known n || any_contained rest known

unfoldable pub controller_authorized : DaemonConfig → ClientConnection → Bool
controller_authorized configuration c =
    contains configuration.controller_uids c.uid
    || any_contained c.peer_groups configuration.controller_gids

-- The place of the first connected client with this id.
pub find_client : List ClientConnection → ℕ → Option ℕ
find_client [] id = none
find_client (c ∷ rest) id =
    let later = Option.map (λ i. i + 1) (find_client rest id) in
    if c.id == id && c.is_connected then some 0 else later

-- The shortest period that a connected subscriber asks for, or 0 where there is none.
pub fastest_period : ℕ → List ClientConnection → ℕ
fastest_period fastest [] = fastest
fastest_period fastest (c ∷ rest) =
    fastest_period
      (if not c.hello_received || not c.subscribe_inputs || not c.is_connected
        then fastest
        else if fastest == 0 || ltb c.input_period_ms fastest
        then c.input_period_ms
        else fastest)
      rest

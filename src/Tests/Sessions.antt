-- ===== src/Tests/Sessions.antt =====
-- The session of daemon/src/main.cpp with one controller and one bus.
use ec_systemcore.Base.{◌*◌, ◌^◌, ◌≡◌, refl, ◌⊎◌, inr, Bool, true, false, List, [], ◌∷◌, none, some}
use ec_systemcore.Protocol.Enums.{
  MessageType, ClientRole, DisableReason, BusState, AdapterLockState, AdapterLockReason,
}
use ec_systemcore.Protocol.Frame.{Frame, encode_frame}
use ec_systemcore.Protocol.Payload.OutputWrite.{encode_output_write_payload}
use ec_systemcore.Protocol.Payload.Control.{encode_output_enable_payload}
use ec_systemcore.Daemon.SpscQueue.{new_queue}
use ec_systemcore.Daemon.Bus.{Bus, OutputCommand, FaultStep, raise_fault, maximum_output_commands}
use ec_systemcore.Daemon.State.{Daemon, ClientConnection, AdapterRuntime, no_client}
use ec_systemcore.Daemon.Outgoing.{close_client}
use ec_systemcore.Daemon.Outgoing.Effects.{InSync, queues}
use ec_systemcore.Daemon.Handlers.Effects.{EnablesNothing}
use ec_systemcore.Daemon.Handlers.Writes.{EnablesBy}
use ec_systemcore.Daemon.Handlers.Commands.{Queues}
use ec_systemcore.Daemon.Frames.{Received, handle_frame}
use ec_systemcore.Daemon.Poll.{Turn, Event, run, close_fuel}
use ec_systemcore.Daemon.Poll.Safety.{
  run_total, run-InSync, handle_frame-queues, handle_frame_enables,
}

abbrev no_command : OutputCommand
no_command = record {
  epoch = 0;
  sub_device_index = 0;
  offset = 0;
  length = 0;
  accepted_monotonic_us = 0;
  image = [];
}

-- A bus that runs in epoch 7, with a SubDevice of two output bytes. Its thread raises a fault in the
-- second gap of a call of `SetSafety`.
abbrev bus : Bus
bus = record {
  state = BusState.operational;
  link_up = true;
  sub_device_count = 1;
  output_sizes = 0 ∷ 2 ∷ [];
  output_bits = 0 ∷ 16 ∷ [];
  output_topology_verified = true;
  distributed_clock = false;
  distributed_clock_synchronized = false;
  safety_epoch = 7;
  safety_epoch_applied = 7;
  outputs_permitted = true;
  faulted_epoch = 0;
  fault_sequence = 0;
  fault_reason = DisableReason.process_data_fault;
  input_publication_period_us = 0;
  reset_counter_sequence = 0;
  output_commands = new_queue no_command maximum_output_commands;
  raised_epoch = 0;
  meanwhile = [] ∷ raise_fault DisableReason.link_loss ∷ [];
}

abbrev controller : ClientConnection
controller = record no_client {
  is_connected = true;
  id = 1;
  pid = 10;
  hello_received = true;
  role = ClientRole.controller;
}

abbrev observer : ClientConnection
observer = record no_client { is_connected = true; id = 2; pid = 11; hello_received = true }

abbrev adapter : AdapterRuntime
adapter = record {
  resolution = record {
    state = AdapterLockState.unlocked;
    reason = AdapterLockReason.none;
    identity = some (record {
      interface_name = 101 ∷ [];
      id_path = [];
      permanent_mac = none;
      usb_serial = none;
      usb_vendor_id = none;
      usb_product_id = none;
      ethernet = true;
      link_up = true;
    });
  };
  runtime_unlocked = false;
  observed_fault_sequence = 0;
}

abbrev daemon : Daemon
daemon = record {
  configuration = record {
    controller_uids = 1000 ∷ [];
    controller_gids = [];
    heartbeat_timeout_ms = 1000;
    output_command_timeout_ms = 500;
    expected_output_bytes = (none ∷ some 2 ∷ []) ∷ [];
  };
  safety = record {
    epoch = 7;
    heartbeat_timeout = 1000;
    output_command_timeout = 500;
    last_output_command = 0;
    controller = some (record { id = 1; pid = 10; last_heartbeat = 0 });
    outputs_enabled = true;
  };
  clients = controller ∷ observer ∷ [];
  buses = bus ∷ [];
  adapters = adapter ∷ [];
  global_faulted_epoch = 0;
  force_adapter_scan = false;
  next_observer_rescan_allowed = 0;
}

-- The same before the outputs are enabled.
abbrev waiting : Daemon
waiting = record daemon { safety = record daemon.safety { outputs_enabled = false } }

abbrev write : Frame
write = record {
  type = MessageType.output_write;
  request_id = 5;
  payload =
      encode_output_write_payload
        (record { epoch = 7; bus_index = 0; sub_device_index = 1; offset = 0; bytes = 3 ∷ 4 ∷ [] });
}

abbrev enable : Frame
enable = record {
  type = MessageType.output_enable;
  request_id = 6;
  payload = encode_output_enable_payload (record { epoch = 7; enabled = true });
}

handle_frame-queues_example :
    (more : Bool) × (d' : Daemon) × (handle_frame (close_client close_fuel 9) 9 4 daemon 0 write
      ≡ some (more, d'))
    × ((queues d'.buses ≡ queues daemon.buses)
        ⊎ ((write.type ≡ MessageType.output_write) × Queues 4 daemon 0 write d'))
handle_frame-queues_example = handle_frame-queues 9 4 daemon 0 write

handle_frame_enables_example :
    (more : Bool) × (d' : Daemon) × (handle_frame (close_client close_fuel 9) 9 4 waiting 0 enable
      ≡ some (more, d'))
    × (EnablesNothing waiting.safety d'.safety
        ⊎ ((enable.type ≡ MessageType.output_enable) × EnablesBy waiting 0 enable d'))
handle_frame_enables_example = handle_frame_enables 9 4 waiting 0 enable

-- The controller writes and leaves; then a bus faults, which the session finds.
abbrev turn : Turn
turn = record {
  has_error = false;
  is_readable = true;
  received =
      Received.interrupted
      ∷ Received.bytes (encode_frame write.type write.request_id write.payload)
      ∷ Received.end_of_stream
      ∷ [];
  is_writable = true;
  sends = [];
  accepted_long_ago = true;
}

abbrev events : List Event
events =
    Event.client_turn 9 4 0 turn
    ∷ Event.fault_raised 0 DisableReason.process_data_fault
    ∷ Event.thread_moves 0 (FaultStep.loads_epoch ∷ FaultStep.latches_fault ∷ [])
    ∷ Event.faults_checked 20
    ∷ Event.timeouts_checked (2 * 10 ^ 9)
    ∷ []

run_total_example : (d' : Daemon) × (run events daemon ≡ some d')
run_total_example = run_total events daemon

run-InSync_example : (d' : Daemon) × (run events daemon ≡ some d') × InSync d'
run-InSync_example = run-InSync events daemon (inr (refl, refl), tt)

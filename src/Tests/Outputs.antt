-- ===== src/Tests/Outputs.antt =====
-- The theorems on the output image of a bus at concrete inputs.
use ec_systemcore.Base.{
  ◌≡◌, ◌∙◌, [], ◌∷◌, some, arith, set, replicate, length-set, length-replicate, true, false,
}
use ec_systemcore.Protocol.Bytes.{IsBytes}
use ec_systemcore.Daemon.SpscQueue.{SpscQueue}
use ec_systemcore.Daemon.SpscQueue.Fifo.{contents, items}
use ec_systemcore.Daemon.Bus.{OutputCommand, maximum_output_commands}
use ec_systemcore.Daemon.Outputs.{
  SubDevice, Worker, permit_of, begin_permission, apply_output_commands,
  enforce_per_sub_device_freshness,
}
use ec_systemcore.Daemon.Outputs.Freshness.{Enforced, enforce_per_sub_device_freshness-Enforced}
use ec_systemcore.Daemon.Outputs.Queue.{apply_all, Filled, apply_output_commands-Filled}

-- One SubDevice, of 12 output bits that begin at bit 2 of the second byte.
abbrev drive : SubDevice
drive = record {
  output_bits = 12;
  output_start_bit = 2;
  outputs = some 1;
  last_output_command_us = 100;
  stale_output = false;
}

abbrev worker : Worker
worker = record {
  context_open = true;
  outputs_were_permitted = true;
  output_command_timeout_ms = 5;
  io_map = 7 ∷ 255 ∷ 255 ∷ 7 ∷ [];
  sub_devices = drive ∷ [];
  stale_output_faults = 0;
}

abbrev no_command : OutputCommand
no_command = record {
  epoch = 0;
  sub_device_index = 0;
  offset = 0;
  length = 0;
  accepted_monotonic_us = 0;
  image = [];
}

abbrev command : OutputCommand
command = record {
  epoch = 3;
  sub_device_index = 1;
  offset = 0;
  length = 2;
  accepted_monotonic_us = 900;
  image = 129 ∷ 5 ∷ [];
}

-- The queue holds the command in its first slot.
abbrev one_command : SpscQueue OutputCommand
one_command = record {
  values = set (replicate maximum_output_commands no_command) 0 command;
  read = 0;
  write = 1;
}

worker-IsBytes : IsBytes worker.io_map
worker-IsBytes = (omega arith, (omega arith, (omega arith, (omega arith, tt))))

-- The last command is 9900 microseconds old, and 5000 are allowed.
enforce_per_sub_device_freshness-Enforced_example :
    Enforced 10000 worker (enforce_per_sub_device_freshness 10000 true worker)
enforce_per_sub_device_freshness-Enforced_example =
    enforce_per_sub_device_freshness-Enforced 10000 worker worker-IsBytes

apply_output_commands-Filled_example :
    (q' : SpscQueue OutputCommand) × (w' : Worker) × (apply_output_commands no_command true 3 1000
        one_command worker
      ≡ some (q', w'))
    × (contents no_command maximum_output_commands q' ≡ [])
    × (w'
        ≡ apply_all
            (permit_of worker true 3 1000)
            (begin_permission (permit_of worker true 3 1000) worker)
            (contents no_command maximum_output_commands one_command))
    × Filled
        (permit_of worker true 3 1000)
        worker
        w'
        (contents no_command maximum_output_commands one_command)
unfolding items
apply_output_commands-Filled_example =
    apply_output_commands-Filled no_command true 3 1000 one_command worker
      (record {
        read_fits = omega arith;
        write_fits = omega arith;
        size_is =
            length-set (replicate maximum_output_commands no_command) 0 command
            ∙ length-replicate maximum_output_commands no_command;
      })
      worker-IsBytes ((omega arith, (omega arith, tt)), tt)

-- ===== src/Protocol/Limits.antt =====
-- The constants of daemon/include/ec_systemcore/protocol.hpp.
use ec_systemcore.Base.{ℕ, ◌+◌, ◌*◌, List, [], ◌∷◌}

abbrev pub magic : List ℕ
magic = b'E' ∷ b'C' ∷ b'S' ∷ b'C' ∷ []

abbrev pub version : ℕ
version = 1

abbrev pub envelope_size : ℕ
envelope_size = 12

abbrev pub length_prefix_size : ℕ
length_prefix_size = 4

abbrev pub minimum_frame_length : ℕ
minimum_frame_length = 12

abbrev pub maximum_frame_length : ℕ
maximum_frame_length = 8192

abbrev pub maximum_buffered_input : ℕ
maximum_buffered_input = 2 * (4 + 8192)

abbrev pub maximum_output_write : ℕ
maximum_output_write = 1024

abbrev pub maximum_pdo_chunk : ℕ
maximum_pdo_chunk = 1024

abbrev pub maximum_pdo_image : ℕ
maximum_pdo_image = 1024 * 1024

abbrev pub maximum_bus_info : ℕ
maximum_bus_info = 2048

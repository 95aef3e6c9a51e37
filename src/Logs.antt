-- ===== src/Logs.antt =====
-- The loggers that the models set up, and the text of tlms/commons/logging.hpp. The calls of spdlog
-- are a parameter: `L` is what the library keeps, and a logger is known by its name.
pub mod Headers
pub mod Tests
use Prim.Native.String.{String}
use deltamodels.Base.{ℕ, ◌*◌, Option, List, ◌++◌, if◌then◌else◌}
use deltamodels.Tlm.{Command, Payload}
use deltamodels.Or1k.Text.{Text, codes, decimal, hex}

pub record Spdlog (L : Type 0) : Type 0 where
  pub rotating_logger_mt : String → String → ℕ → ℕ → L → L
  pub set_default_logger : String → L → L
  pub set_pattern : String → L → L
  pub flush_every : ℕ → L → L
  -- `spdlog::info(text)`, and `spdlog::get(name)->info(text)`.
  pub info : String → L → L
  pub info_of : String → String → L → L

abbrev pub max_size : ℕ
max_size = 128 * 1024 * 1024

abbrev pub max_files : ℕ
max_files = 3

module _ {L : Type 0} (spdlog : Spdlog L) where
  -- `TLMRouter::setup_logger`
  pub router_setup_logger : String → L → L
  router_setup_logger filename l0 =
      let l1 = spdlog.rotating_logger_mt "tlms_logger" filename max_size max_files l0 in
      let l2 = spdlog.set_pattern "%v" (spdlog.set_default_logger "tlms_logger" l1) in
      spdlog.flush_every 1
        (spdlog.info "TimeStamp, Target, Initiator, Address, Cmd, Value, Len, Wid, Byt, Data" l2)

  -- `GENERIC_SDRAM::setup_logger`
  pub sdram_setup_logger : String → L → L
  sdram_setup_logger filename l0 =
      let l1 = spdlog.rotating_logger_mt "SDRAM_logger" filename max_size max_files l0 in
      spdlog.info_of "SDRAM_logger" "TimeStamp, CMD, Address, Value"
        (spdlog.flush_every 1 (spdlog.set_pattern "%v" l1))

  -- `N25QX::setup_logger`
  pub flash_setup_logger : String → L → L
  flash_setup_logger filename l0 =
      let l1 = spdlog.rotating_logger_mt "N25QX_logger" filename max_size max_files l0 in
      spdlog.flush_every 1 (spdlog.info "TimeStamp, Addr, Idx, Value" (spdlog.set_pattern "%v" l1))

  -- `Or1kInstructionTracer::setup_logger`
  pub instruction_setup_logger : String → L → L
  instruction_setup_logger filename l0 =
      let l1 = spdlog.rotating_logger_mt "or1k_logger" filename max_size max_files l0 in
      spdlog.flush_every 1 (spdlog.set_pattern "%v" l1)

  -- `Or1kDataTracer::setup_logger`
  pub data_setup_logger : String → L → L
  data_setup_logger filename l0 =
      let l1 = spdlog.rotating_logger_mt "or1k_data_logger" filename max_size max_files l0 in
      let header : String = "TimeStamp, Address, Data(read or written), operation" in
      spdlog.flush_every 1 (spdlog.info_of "or1k_data_logger" header (spdlog.set_pattern "%v" l1))

-- Every command but a write is printed as a read.
abbrev command_text : Command → Text
command_text Command.write = codes "write"
command_text _ = codes "read"

pub tlm_info : Payload → Text
tlm_info trans =
    codes "TLM_INFO: \n cmd: "
    ++ (command_text trans.command
        ++ (codes "\n raw transaction addr: 0x"
            ++ (hex trans.address
                ++ (codes "\n data ptr: 0x"
                    ++ (hex trans.data_ptr
                        ++ (codes "\n data len: " ++ decimal trans.data_length))))))

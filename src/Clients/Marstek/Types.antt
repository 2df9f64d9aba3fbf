-- ===== src/Clients/Marstek/Types.antt =====
-- The data of clients/marstek/client.go, and the socket and decoders that it stands on.
use marstek_energy_trading.Prelude.{ℕ, Bool, Option, List, String, ℤ}
use marstek_energy_trading.Platform.{Platform}
use marstek_energy_trading.Service.Types.{Result}

pub record RpcError : Type 0 where
  pub code : ℤ
  pub message : String

-- `result` is the raw JSON.
pub record Response : Type 0 where
  pub id : ℤ
  pub src : String
  pub result : String
  pub error : Option RpcError

pub record DeviceInfo : Type 0 where
  pub device : String
  pub version : ℤ
  pub ble_mac : String
  pub wifi_mac : String
  pub wifi_name : String
  pub ip : String

-- A method with its parameters: `set_passive` and `set_auto` are the two configurations of
-- `ES.SetMode`.
pub data Method : Type 0 where
  get_device bat_get_status es_get_status es_get_mode : Method
  set_passive : ℤ → ℤ → Method
  set_auto : Method

-- What crosses the socket: a request with its id, or a packet as it was read.
pub data Event : Type 0 where
  sent : ℕ → Method → Event
  received : String → Event

module _ (N : Platform) where
  open N use {Float}

  pub record BatteryStatus : Type 0 where
    pub id : ℤ
    pub soc : ℤ
    pub charging_flag : Bool
    pub discharg_flag : Bool
    pub temperature : Float
    pub capacity : Float
    pub rated_capacity : Float

  pub record EsStatus : Type 0 where
    pub id : ℤ
    pub battery_soc : ℤ
    pub battery_capacity : Float
    pub pv_power : Float
    pub on_grid_power : Float
    pub off_grid_power : Float
    pub battery_power : Float
    pub total_pv_energy : Float
    pub total_grid_output_energy : Float
    pub total_grid_input_energy : Float
    pub total_load_energy : Float

  pub record EsMode : Type 0 where
    pub id : ℤ
    pub mode : String
    pub on_grid_power : Float
    pub off_grid_power : Float
    pub battery_soc : ℤ

  -- The network, the mutex, the caller's context and encoding/json. `lock_waits` is how often the wait
  -- for the mutex ends before the context is done (with `cancelled`), and `packets` how many packets the deadline leaves
  -- time for; the read after them fails with `deadline_error`.
  pub record Udp : Type 1 where
    pub World : Type 0
    pub cancelled : String
    pub context_err : World → Option String × World
    pub try_lock : World → Bool × World
    pub lock_waits : World → ℕ × World
    pub unlock : World → World
    pub marshal : ℕ → Method → Option String
    pub resolve_udp_addr : World → Option String × World
    pub listen_udp : World → Option String × World
    pub close_udp : World → Option String × World
    pub write_to_udp : ℕ → Method → World → Option String × World
    pub set_read_deadline : World → Option String × World
    pub packets : World → ℕ × World
    pub read_from_udp : World → Result String × World
    pub deadline_error : String
    pub decode_response : String → Option Response
    pub decode_device_info : String → Option DeviceInfo
    pub decode_battery_status : String → Option BatteryStatus
    pub decode_es_status : String → Option EsStatus
    pub decode_es_mode : String → Option EsMode
    pub decode_set_result : String → Option Bool

module _ {N : Platform} (U : Udp N) where
  -- The client: whether it has a connection, the last request id (which stays below 2 ^ 63), the
  -- world of its socket, and all that crossed it, the latest first; the code never reads `log`.
  pub record Socket : Type 0 where
    pub connected : Bool
    pub request_id : ℕ
    pub log : List Event
    pub world : Udp.World U

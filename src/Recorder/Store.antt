-- ===== src/Recorder/Store.antt =====
-- The file of trades: `RecordTrade`, `saveTrades` and `LoadTrades` of service/recorder.go, over
-- parameters for the file system and for JSON.
pub mod Atomic
pub mod Prefix
use text.Mathlib.Text
use Prim.Native.String.{◌++◌ as ◌<>◌}
use marstek_energy_trading.Prelude.{
  Bool, true, false, Option, none, some, List, [], ◌∷◌, ◌++◌, String, if◌then◌else◌,
}
use marstek_energy_trading.Platform.{Platform}
use marstek_energy_trading.Recorder.Types.{Trade}
use marstek_energy_trading.Service.Types.{Result, ok, failed}

-- Why a file was not read.
pub data ReadError : Type 0 where
  not_exist : ReadError
  unreadable : String → ReadError

pub data Contents : Type 0 where
  stored : String → Contents
  unread : ReadError → Contents

abbrev pub tmp_path : String → String
tmp_path path = path <> ".tmp"

module _ (N : Platform) where
  -- The functions of os, path/filepath and encoding/json that the recorder calls. `unmarshal` gives
  -- the trades after it, from those before.
  pub record Files : Type 1 where
    pub Disk : Type 0
    pub mkdir_all : String → Disk → Option String × Disk
    pub write_file : String → String → Disk → Option String × Disk
    pub rename : String → String → Disk → Option String × Disk
    pub remove : String → Disk → Disk
    pub read_file : String → Disk → Contents × Disk
    pub join : String → String → String
    pub marshal : List (Trade N) → Result String
    pub unmarshal : List (Trade N) → String → List (Trade N) × Option String

module _ {N : Platform} (F : Files N) where
  open F use {Disk, mkdir_all, write_file, rename, remove, read_file, join, marshal, unmarshal}

  unfoldable pub trades_path : String → String
  trades_path data_dir = join data_dir "trades.json"

  -- The renaming, and the cleanup if it fails.
  unfoldable pub rename_or_remove : String → Disk → Option String × Disk
  rename_or_remove path disk =
      let (err, renamed) = rename (tmp_path path) path disk in
      elim err [ none ↦ (none, renamed) | some e ↦ (some e, remove (tmp_path path) renamed) ]

  -- The text goes to a temporary file first.
  unfoldable pub write_trades : String → Result String → Disk → Option String × Disk
  unfolding rename_or_remove
  write_trades path (failed e) disk = (some e, disk)
  write_trades path (ok content) disk =
      let (err, written) = write_file (tmp_path path) content disk in
      elim err [ some e ↦ (some e, written) | none ↦ rename_or_remove path written ]

  unfoldable pub save_trades : String → List (Trade N) → Disk → Option String × Disk
  unfolding trades_path write_trades
  save_trades data_dir trades disk =
      if Text.◌==◌ data_dir ""
      then (none, disk)
      else (let (err, made) = mkdir_all data_dir disk in
          elim err [
            | some e ↦ (some e, made)
            | none ↦ write_trades (trades_path data_dir) (marshal trades) made
          ])

  -- The trades after the load, and its error. A missing file is no error.
  unfoldable pub load_trades :
      String → List (Trade N) → Disk → (List (Trade N) × Option String) × Disk
  unfolding trades_path
  load_trades data_dir trades disk =
      if Text.◌==◌ data_dir ""
      then ((trades, none), disk)
      else (let (contents, read) = read_file (trades_path data_dir) disk in
          elim contents [
            | unread not_exist ↦ ((trades, none), read)
            | unread (unreadable e) ↦ ((trades, some e), read)
            | stored content ↦ (unmarshal trades content, read)
          ])

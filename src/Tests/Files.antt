-- ===== src/Tests/Files.antt =====
-- Witnesses for the file of trades, over a disk in memory and a codec of one trade.
use text.Mathlib.Text
use Prim.Native.String.{◌++◌ as ◌<>◌}
use text.Mathlib.TextEquality.{eq_iff}
use marstek_energy_trading.Prelude.{
  ◌≡◌, ◌≢◌, refl, ap, Bool, true, false, Bool-cases, inl, inr, ◌&&◌, ℕ, ◌==◌, ℤ, negsuc, Option,
  none, some, List, [], ◌∷◌, String, pos, if◌then◌else◌, arith,
}
use marstek_energy_trading.Recorder.Types.{TradeAction, Trade}
use marstek_energy_trading.Service.Types.{Result, ok, failed}
use marstek_energy_trading.Recorder.Store.{
  Contents, stored, unread, not_exist, unreadable, Files, trades_path, save_trades, load_trades,
}
use marstek_energy_trading.Recorder.Store.Atomic.{
  IsFileSystem, save_trades-failed, load_trades-save_trades,
}
use marstek_energy_trading.Tests.Numbers.{numbers}

abbrev sale : Trade numbers
sale = record {
  timestamp = 60;
  action = TradeAction.discharge;
  price_eur = pos 30;
  power_w = pos 2500;
  duration_s = pos 60;
  energy_kwh = pos 2;
  start_soc = pos 60;
  end_soc = pos 20;
}

abbrev is_number : ℕ → ℤ → Bool
is_number n (pos m) = m == n
is_number n (negsuc m) = false

abbrev is_discharge : TradeAction → Bool
is_discharge TradeAction.discharge = true
is_discharge TradeAction.charge = false
is_discharge TradeAction.solar_charge = false

-- The codec knows one trade only.
abbrev is_sale : Trade numbers → Bool
is_sale t =
    t.timestamp == 60
    && is_discharge t.action
    && is_number 30 t.price_eur
    && is_number 2500 t.power_w
    && is_number 60 t.duration_s
    && is_number 2 t.energy_kwh
    && is_number 60 t.start_soc
    && is_number 20 t.end_soc

is_sale-eq : (t : Trade numbers) → is_sale t ≡ true → t ≡ sale
is_sale-eq t h = ground arith

abbrev marshal : List (Trade numbers) → Result String
marshal [] = ok "[]"
marshal (t ∷ []) = if is_sale t then ok "[sale]" else failed "another trade"
marshal (t ∷ u ∷ ts) = failed "more trades"

abbrev unmarshal : List (Trade numbers) → String → List (Trade numbers) × Option String
unmarshal old text =
    if Text.◌==◌ text "[]"
    then ([], none)
    else if Text.◌==◌ text "[sale]"
    then (sale ∷ [], none)
    else (old, some "syntax")

abbrev Disk : Type 0
Disk = String → Option String

abbrev put : String → String → Disk → Disk
put p text d q = if Text.◌==◌ q p then some text else d q

abbrev delete : String → Disk → Disk
delete p d q = if Text.◌==◌ q p then none else d q

abbrev move_text : String → Option String → Disk → Option String × Disk
move_text q none d = (some "no such file", d)
move_text q (some text) d = (none, put q text d)

-- The disk takes no file in the folder `locked`.
abbrev move : String → String → Disk → Option String × Disk
move p q d =
    if Text.◌==◌ q "locked/trades.json" then (some "permission denied", d) else move_text q (d p) d

abbrev contents_of : Option String → Contents
contents_of none = unread not_exist
contents_of (some text) = stored text

abbrev read : String → Disk → Contents × Disk
read p d = (contents_of (d p), d)

abbrev pub memory : Files numbers
memory = record {
  Disk = Disk;
  mkdir_all = λ dir d. (none, d);
  write_file = λ p text d. (none, put p text d);
  rename = move;
  remove = delete;
  read_file = read;
  join = λ dir file. dir <> "/" <> file;
  marshal = marshal;
  unmarshal = unmarshal;
}

put_same : (p text : String) (d : Disk) → put p text d p ≡ some text
put_same p text d = rw ((eq_iff p p).1 refl) refl

ne-false : (p q : String) → q ≢ p → Text.◌==◌ q p ≡ false
ne-false p q ne = elim (Bool-cases (Text.◌==◌ q p)) [
  | inl e ↦ absurd (ne ((eq_iff q p).0 e))
  | inr e ↦ e
]

move_text_done :
    (q : String) (o : Option String) (d : Disk)
    → (move_text q o d).0 ≡ none
    → (move_text q o d).1 q ≡ o
move_text_done q none d h = cc
move_text_done q (some text) d h = put_same q text d

move_text_failed :
    (q r e : String) (o : Option String) (d : Disk)
    → (move_text q o d).0 ≡ some e
    → (move_text q o d).1 r ≡ d r
move_text_failed q r e none d h = refl
move_text_failed q r e (some text) d h = cc

move_done : (p q : String) (d : Disk) → (move p q d).0 ≡ none → (move p q d).1 q ≡ d p
move_done p q d h = elim (Bool-cases (Text.◌==◌ q "locked/trades.json")) [
  | inl e ↦ cc (rw e at h)
  | inr e ↦ rw e (move_text_done q (d p) d (rw e at h))
]

move_failed : (p q r e : String) (d : Disk) → (move p q d).0 ≡ some e → (move p q d).1 r ≡ d r
move_failed p q r e d h = elim (Bool-cases (Text.◌==◌ q "locked/trades.json")) [
  | inl f ↦ rw f refl
  | inr f ↦ rw f (move_text_failed q r e (d p) d (rw f at h))
]

marshal_codec :
    (ts old : List (Trade numbers)) (text : String)
    → marshal ts ≡ ok text
    → unmarshal old text ≡ (ts, none)
marshal_codec [] old text h = let e : "[]" ≡ text = cc in rw (← e) refl
marshal_codec (t ∷ []) old text h = elim (Bool-cases (is_sale t)) [
  | inl same ↦ let e : "[sale]" ≡ text = cc (rw same at h) in rw (← e, is_sale-eq t same) refl
  | inr other ↦ cc (rw other at h)
]
marshal_codec (t ∷ u ∷ ts) old text h = cc

pub memory-IsFileSystem : IsFileSystem memory
memory-IsFileSystem = record {
  content = λ d p. d p;
  content-mkdir_all = λ dir p d. refl;
  content-write_file = λ p text d h. put_same p text d;
  content-write_file_ne = λ p text q d ne. rw (ne-false p q ne) refl;
  content-rename = move_done;
  content-rename_failed = λ p q r e d h. move_failed p q r e d h;
  content-remove_ne = λ p q d ne. rw (ne-false p q ne) refl;
  content-read_file = λ p q d. refl;
  read_file-content = λ p text d h. inl (ap contents_of h);
  unmarshal-marshal = marshal_codec;
}

abbrev empty_disk : Disk
empty_disk p = none

-- An older file stays when the new one is refused.
abbrev old_disk : Disk
old_disk = put "locked/trades.json" "[]" empty_disk

locked_error : (save_trades memory "locked" (sale ∷ []) old_disk).0 ≡ some "permission denied"
unfolding save_trades
locked_error = refl

save_trades-failed_example :
    (save_trades memory "locked" (sale ∷ []) old_disk).1 "locked/trades.json"
    ≡ old_disk "locked/trades.json"
unfolding trades_path memory-IsFileSystem
save_trades-failed_example =
    save_trades-failed memory memory-IsFileSystem "locked" (sale ∷ []) "permission denied" old_disk
      locked_error

saved : (save_trades memory "data" (sale ∷ []) empty_disk).0 ≡ none
unfolding save_trades
saved = refl

readable :
    (e : String)
    → (read "data/trades.json" (save_trades memory "data" (sale ∷ []) empty_disk).1).0
      ≢ unread (unreadable e)
unfolding save_trades
readable e h = cc

load_trades-save_trades_example :
    (load_trades memory "data" [] (save_trades memory "data" (sale ∷ []) empty_disk).1).0
    ≡ (sale ∷ [], none)
unfolding trades_path
load_trades-save_trades_example =
    load_trades-save_trades memory memory-IsFileSystem "data" (sale ∷ []) [] empty_disk refl saved
      readable

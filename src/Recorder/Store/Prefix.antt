-- ===== src/Recorder/Store/Prefix.antt =====
-- What service/recorder.go keeps of its trades in the file: at any time the first of them, or what was
-- there before.
use text.Mathlib.Text
use marstek_energy_trading.Prelude.{
  ◌≡◌, refl, ◌∙◌, sym, ap, ◌⊎◌, inl, inr, Bool-cases, Option, Option-cases, some, List, [], ◌∷◌,
  ◌++◌, String, arith,
}
use mathlib.Core.List.{append_assoc, append-nil}
use marstek_energy_trading.Platform.{Platform}
use marstek_energy_trading.Recorder.Types.{Trade}
use marstek_energy_trading.Service.Types.{ok}
use marstek_energy_trading.Recorder.Store.{Files, trades_path, save_trades, load_trades}
use marstek_energy_trading.Recorder.Store.Atomic.{
  IsFileSystem, save_trades-failed, save_trades-done,
}

module _ {N : Platform} (F : Files N) (fs : IsFileSystem F) (dir : String) where
  open F use {Disk, read_file, marshal, unmarshal}
  open fs use {content, content-read_file, read_file-content, unmarshal-marshal}

  -- What the file of trades holds.
  abbrev pub file : Disk → Option String
  file d = content d (trades_path F dir)

  -- The file decodes to the first of the trades.
  abbrev pub HoldsPrefix : List (Trade N) → Option String → Type 0
  HoldsPrefix ts held =
      (earlier later : List (Trade N)) × (text : String) × (ts ≡ earlier ++ later)
      × (held ≡ some text)
      × (marshal earlier ≡ ok text)

  -- The file is as it was at first, or holds the first trades.
  abbrev pub IsDurable : Option String → List (Trade N) → Disk → Type 0
  IsDurable first ts d = (file d ≡ first) ⊎ HoldsPrefix ts (file d)

  save_trades-either :
      (ts : List (Trade N)) (d : Disk)
      → let (err, d') = save_trades F dir ts d in
        (file d' ≡ file d) ⊎ ((text : String) × (marshal ts ≡ ok text) × (file d' ≡ some text))
  unfolding save_trades
  save_trades-either ts d = elim (Option-cases (save_trades F dir ts d).0) [
    | inr (e, bad) ↦ inl (save_trades-failed F fs dir ts e d bad)
    | inl fine ↦ elim (Bool-cases (Text.◌==◌ dir "")) [
      | inl off ↦ inl (rw off refl)
      | inr on ↦ inr (save_trades-done F fs dir ts d on fine)
    ]
  ]

  pub save_trades-IsDurable :
      (first : Option String) (t : Trade N) (ts : List (Trade N)) (d : Disk)
      → IsDurable first ts d
      → IsDurable first (ts ++ t ∷ []) (save_trades F dir (ts ++ t ∷ []) d).1
  save_trades-IsDurable first t ts d h = elim (save_trades-either (ts ++ t ∷ []) d) [
    | inr (text, m, c) ↦ inr (ts ++ t ∷ [], [], text, sym (append-nil _), c, m)
    | inl same ↦ elim h [
      | inl old ↦ inl (same ∙ old)
      | inr (earlier, later, text, e, c, m) ↦ inr (
        earlier,
        later ++ t ∷ [],
        text,
        ap (λ xs. xs ++ t ∷ []) e ∙ append_assoc earlier later (t ∷ []),
        same ∙ c,
        m,
      )
    ]
  ]

  load_trades-file : (ts : List (Trade N)) (d : Disk) → file (load_trades F dir ts d).1 ≡ file d
  unfolding load_trades
  load_trades-file ts d =
      ground (arith, content-read_file (trades_path F dir) (trades_path F dir) d)

  load_trades-prefix :
      (ts earlier : List (Trade N)) (text : String) (d : Disk)
      → file d ≡ some text
      → marshal earlier ≡ ok text
      → ((load_trades F dir ts d).0.0 ≡ ts) ⊎ ((load_trades F dir ts d).0.0 ≡ earlier)
  unfolding load_trades
  load_trades-prefix ts earlier text d c m =
      ground
        (arith, read_file-content (trades_path F dir) text d c, unmarshal-marshal earlier ts text m)

  pub load_trades-IsDurable :
      (first : Option String) (ts : List (Trade N)) (d : Disk)
      → IsDurable first ts d
      → IsDurable first (load_trades F dir ts d).0.0 (load_trades F dir ts d).1
  load_trades-IsDurable first ts d (inl old) = inl (load_trades-file ts d ∙ old)
  load_trades-IsDurable first ts d (inr (earlier, later, text, e, c, m)) =
      let c' = load_trades-file ts d ∙ c in
      elim (load_trades-prefix ts earlier text d c m) [
        | inl kept ↦ inr (earlier, later, text, kept ∙ e, c', m)
        | inr loaded ↦ inr (earlier, [], text, loaded ∙ sym (append-nil earlier), c', m)
      ]

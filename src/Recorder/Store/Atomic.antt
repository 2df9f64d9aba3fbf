-- ===== src/Recorder/Store/Atomic.antt =====
-- The file of trades is replaced at once or not at all, and read back as it was saved: `saveTrades`
-- and `LoadTrades` of service/recorder.go over a file system with the documented laws.
use text.Mathlib.Text
use text.Mathlib.TextLemmas.{append-nil, append_cancel_left, nil≢cons}
use marstek_energy_trading.Prelude.{
  false, Bool-cases, Option-cases, Option, none, some, List, String, ◌≡◌, ◌≢◌, refl, ◌∙◌, ◌⊎◌, inl,
  inr,
}
use marstek_energy_trading.Platform.{Platform}
use marstek_energy_trading.Recorder.Types.{Trade}
use marstek_energy_trading.Service.Types.{Result, ok, failed}
use marstek_energy_trading.Recorder.Store.{
  stored, unread, unreadable, Files, trades_path, tmp_path, rename_or_remove, write_trades,
  save_trades, load_trades,
}

module _ {N : Platform} (F : Files N) where
  open F use {Disk, mkdir_all, write_file, rename, remove, read_file, marshal, unmarshal}

  -- The documented behaviour of os and encoding/json: `content` is what a path holds.
  pub record IsFileSystem : Type 0 where
    pub content : Disk → String → Option String
    pub content-mkdir_all :
        (dir p : String) (d : Disk) → content (mkdir_all dir d).1 p ≡ content d p
    pub content-write_file :
        (p text : String) (d : Disk)
        → (write_file p text d).0 ≡ none
        → content (write_file p text d).1 p ≡ some text
    -- A write, also a failed one, touches its own path only.
    pub content-write_file_ne :
        (p text q : String) (d : Disk) → q ≢ p → content (write_file p text d).1 q ≡ content d q
    pub content-rename :
        (p q : String) (d : Disk)
        → (rename p q d).0 ≡ none
        → content (rename p q d).1 q ≡ content d p
    pub content-rename_failed :
        (p q r e : String) (d : Disk)
        → (rename p q d).0 ≡ some e
        → content (rename p q d).1 r ≡ content d r
    pub content-remove_ne : (p q : String) (d : Disk) → q ≢ p → content (remove p d) q ≡ content d q
    pub content-read_file : (p q : String) (d : Disk) → content (read_file p d).1 q ≡ content d q
    pub read_file-content :
        (p text : String) (d : Disk)
        → content d p ≡ some text
        → ((read_file p d).0 ≡ stored text)
          ⊎ ((e : String) × ((read_file p d).0 ≡ unread (unreadable e)))
    pub unmarshal-marshal :
        (ts old : List (Trade N)) (text : String)
        → marshal ts ≡ ok text
        → unmarshal old text ≡ (ts, none)

tmp_path-ne : (p : String) → p ≢ tmp_path p
tmp_path-ne p h = nil≢cons (append_cancel_left p "" ".tmp" (append-nil p ∙ h))

module _ {N : Platform} (F : Files N) (fs : IsFileSystem F) where
  open F use {Disk, mkdir_all, write_file, rename, read_file, marshal}
  open fs use {
    content, content-mkdir_all, content-write_file, content-write_file_ne, content-rename,
    content-rename_failed, content-remove_ne, read_file-content, unmarshal-marshal,
  }

  rename_or_remove-failed :
      (path e : String) (d : Disk)
      → (rename_or_remove F path d).0 ≡ some e
      → content (rename_or_remove F path d).1 path ≡ content d path
  unfolding rename_or_remove
  rename_or_remove-failed path e d h = elim (Option-cases (rename (tmp_path path) path d).0) [
    | inl fine ↦ cc (rw (fine, rename_or_remove) at h)
    | inr (e', bad) ↦
        rw
          (
            bad,
            rename_or_remove,
            content-remove_ne (tmp_path path) path (rename (tmp_path path) path d).1
                (tmp_path-ne path),
          )
          (content-rename_failed (tmp_path path) path path e' d bad)
  ]

  rename_or_remove-done :
      (path : String) (d : Disk)
      → (rename_or_remove F path d).0 ≡ none
      → content (rename_or_remove F path d).1 path ≡ content d (tmp_path path)
  unfolding rename_or_remove
  rename_or_remove-done path d h = elim (Option-cases (rename (tmp_path path) path d).0) [
    | inl fine ↦ rw (fine, rename_or_remove) (content-rename (tmp_path path) path d fine)
    | inr (e', bad) ↦ cc (rw (bad, rename_or_remove) at h)
  ]

  write_trades-failed :
      (path : String) (r : Result String) (e : String) (d : Disk)
      → (write_trades F path r d).0 ≡ some e
      → content (write_trades F path r d).1 path ≡ content d path
  unfolding write_trades
  write_trades-failed path (failed e') e d h = refl
  write_trades-failed path (ok text) e d h =
      elim (Option-cases (write_file (tmp_path path) text d).0) [
        | inl fine ↦
            rw (fine, write_trades)
              (rename_or_remove-failed path e _ (rw (fine, write_trades) at h)
                ∙ content-write_file_ne (tmp_path path) text path d (tmp_path-ne path))
        | inr (e', bad) ↦
            rw (bad, write_trades)
              (content-write_file_ne (tmp_path path) text path d (tmp_path-ne path))
      ]

  write_trades-done :
      (path : String) (r : Result String) (d : Disk)
      → (write_trades F path r d).0 ≡ none
      → (text : String) × (r ≡ ok text) × (content (write_trades F path r d).1 path ≡ some text)
  unfolding write_trades
  write_trades-done path (failed e') d h = cc
  write_trades-done path (ok text) d h = elim (Option-cases (write_file (tmp_path path) text d).0) [
    | inl fine ↦ (
      text,
      refl,
      rw (fine, write_trades)
          (rename_or_remove-done path _ (rw (fine, write_trades) at h)
            ∙ content-write_file (tmp_path path) text d fine),
    )
    | inr (e', bad) ↦ cc (rw (bad, write_trades) at h)
  ]

  -- A save that reports an error leaves the file of trades as it was, whichever step failed.
  pub save_trades-failed :
      (dir : String) (ts : List (Trade N)) (e : String) (d : Disk)
      → (save_trades F dir ts d).0 ≡ some e
      → content (save_trades F dir ts d).1 (trades_path F dir) ≡ content d (trades_path F dir)
  unfolding save_trades
  save_trades-failed dir ts e d h = elim (Bool-cases (Text.◌==◌ dir "")) [
    | inl off ↦ rw off refl
    | inr on ↦ elim (Option-cases (mkdir_all dir d).0) [
      | inl fine ↦
          rw (on, fine)
            (write_trades-failed _ (marshal ts) e _ (rw (on, fine) at h)
              ∙ content-mkdir_all dir _ d)
      | inr (e', bad) ↦ rw (on, bad) (content-mkdir_all dir _ d)
    ]
  ]

  pub save_trades-done :
      (dir : String) (ts : List (Trade N)) (d : Disk)
      → Text.◌==◌ dir "" ≡ false
      → (save_trades F dir ts d).0 ≡ none
      → (text : String) × (marshal ts ≡ ok text)
        × (content (save_trades F dir ts d).1 (trades_path F dir) ≡ some text)
  unfolding save_trades
  save_trades-done dir ts d on h = elim (Option-cases (mkdir_all dir d).0) [
    | inl fine ↦ rw (on, fine) (write_trades-done _ (marshal ts) _ (rw (on, fine) at h))
    | inr (e', bad) ↦ cc (rw (on, bad) at h)
  ]

  load_trades-stored :
      (dir text : String) (ts old : List (Trade N)) (d : Disk)
      → Text.◌==◌ dir "" ≡ false
      → marshal ts ≡ ok text
      → (read_file (trades_path F dir) d).0 ≡ stored text
      → (load_trades F dir old d).0 ≡ (ts, none)
  unfolding load_trades
  load_trades-stored dir text ts old d on m r = rw (on, r) (unmarshal-marshal ts old text m)

  -- With a data directory, once a save reports no error, a load from the disk that it left gives the
  -- saved trades and no error, whatever trades the loading recorder held, if the reading of the file
  -- meets no error of the disk.
  pub load_trades-save_trades :
      (dir : String) (ts old : List (Trade N)) (d : Disk)
      → Text.◌==◌ dir "" ≡ false
      → (save_trades F dir ts d).0 ≡ none
      → ((e : String)
          → (read_file (trades_path F dir) (save_trades F dir ts d).1).0 ≢ unread (unreadable e))
      → (load_trades F dir old (save_trades F dir ts d).1).0 ≡ (ts, none)
  load_trades-save_trades dir ts old d on h readable =
      let (text, m, c) = save_trades-done dir ts d on h in
      elim (read_file-content _ text _ c) [
        | inl r ↦ load_trades-stored dir text ts old _ on m r
        | inr (e, bad) ↦ absurd (readable e bad)
      ]

-- ===== src/Steam/Sync.antt =====
-- `sync` of src/common/steam_library.cpp: bringing the games into Steam's shortcuts. The files and
-- pictures are parameters.
use rift_lift.Common.{
  ℕ, zero, suc, ◌+◌, Bool, true, false, ◌&&◌, List, [], ◌∷◌, Option, none, some, Text, codes,
  text_eq, length, Result, ok, err, ◌>>=◌, if◌then◌else◌,
}
use rift_lift.Steam.Vdf.{Vdf, read_vdf, write_vdf}
use rift_lift.Steam.Fields.{children, with_children, empty, replace, put}
use rift_lift.Steam.Shortcut.{Game}
use rift_lift.Steam.Draft.{Art, Pictures, Progress, draft}

-- The file's object with other entries in its list.
unfoldable pub assemble : Vdf → Vdf → List Vdf → Vdf
assemble doc list entries = with_children (replace (with_children entries list) (children doc)) doc

-- Another client is running, the file needs no change, or it gets these bytes; with the number of
-- games.
pub data Outcome : Type 0 where
  deferred : Outcome
  unchanged : ℕ → Outcome
  written : Text → ℕ → Outcome

unfoldable pub put_at : ℕ → Text → Text → List Vdf → Result (List Vdf)
put_at i k v [] = ok []
put_at zero k v (n ∷ ns) = do n' ← put k v 1 n; ok (n' ∷ ns)
put_at (suc i) k v (n ∷ ns) = do ns' ← put_at i k v ns; ok (n ∷ ns')

-- What `probe` says at each of its calls, by their number; what `install_art` answers.
module _ (probe : ℕ → Bool) (installs : Art → Bool) where
  abbrev pub install_icon : Art → List Vdf → Result (List Vdf)
  install_icon a entries =
      if installs a && a.is_for_icon
      then put_at a.index (codes "icon") a.destination entries
      else ok entries

  -- Without a result the client was started meanwhile.
  unfoldable pub install_arts : ℕ → List Art → List Vdf → Result (Option (List Vdf))
  install_arts call [] entries = ok (some entries)
  install_arts call (a ∷ rest) entries = elim (probe call) [
    | true ↦ ok none
    | false ↦ do entries' ← install_icon a entries; install_arts (call + 1) rest entries'
  ]

  abbrev pub same_file : Option Text → Option Text → Bool
  same_file none none = true
  same_file (some a) (some b) = text_eq a b
  same_file _ _ = false

  abbrev pub bytes_of : Option Text → Text
  bytes_of none = []
  bytes_of (some bytes) = bytes

  unfoldable pub finish_sync : Text → ℕ → Option Text → Option Text → Result Outcome
  finish_sync bytes count old now =
      if text_eq bytes (bytes_of old)
      then ok (unchanged count)
      else if same_file old now
      then ok (written bytes count)
      else err (codes "Steam shortcuts changed during sync; leaving them unchanged. Retry sync.")

  module _ (executable folder : Text) (pictures : Pictures) (games : List Game) where
    abbrev pub open_file : Option Text → Result Vdf
    open_file none = ok empty
    open_file (some bytes) = read_vdf bytes

    -- The pictures, and the file behind them.
    unfoldable pub finish_draft : Vdf → Vdf → Progress → Option Text → Option Text → Result Outcome
    finish_draft doc list s old now = do
      _ ← write_vdf (assemble doc list s.retained)
      elim (probe 1) [
        | true ↦ ok deferred
        | false ↦ do
          installed ← install_arts 2 s.artwork s.retained
          elim installed [
            | none ↦ ok deferred
            | some entries ↦ do
              bytes ← write_vdf (assemble doc list entries)
              elim (probe (2 + length s.artwork)) [
                | true ↦ ok deferred
                | false ↦ finish_sync bytes (length s.packages) old now
              ]
          ]
      ]

    -- `old` and `now` are what the file holds at first and before it is written, if it exists.
    unfoldable pub sync : Option Text → Option Text → Result Outcome
    sync old now = elim (probe 0) [
      | true ↦ ok deferred
      | false ↦ do
        doc ← open_file old
        (doc', list, s) ← draft executable folder pictures games doc
        finish_draft doc' list s old now
    ]

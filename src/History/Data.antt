-- ===== src/History/Data.antt =====
-- The state of a copy, what it asks of the other parts, and the grouping of messages into albums.
use tgvive.Prelude.Int.{ℤ, eqb_ℤ}
use tgvive.Filter.{Media, MediaGroupPlan, Msg, Rules}
use tgvive.Prelude.{ℕ, Bool, Option, ◌++◌, List, ◌∷◌, if◌then◌else◌, some, [], eqb, ◌&&◌, none}
use tgvive.Prelude.Results.{Result}

-- What is written to the database of a task's place.
pub data Persist : Type 0 where
  cursor_and_max : ℤ → Persist
  cursor_only : ℤ → Persist
  max_only : ℤ → Persist

-- What processWithRetry makes of sending: media that are not supported count as delivered.
pub data Sent (Err : Type 0) : Type 0 where
  delivered : Sent Err
  download_failed : Err → Sent Err
  broken : Err → Sent Err

pub record Request : Type 0 where
  pub offset_id : ℤ
  pub add_offset : ℤ
  pub limit : ℤ
  pub min_id : ℤ
  pub max_id : ℤ

-- What the other parts answer at a turn. The comments of a message, which are copied after it, change
-- nothing here.
pub record Env (Err Entity : Type 0) : Type 0 where
  pub media : Media Entity
  pub ctx_err : ℕ → Option Err
  pub rules : ℕ → Rules
  pub has_keywords : Bool
  pub keyword : Msg Entity → Msg Entity × Bool
  pub wait_quota : ℕ → ℕ → Option Err
  pub quota_add : ℕ → ℕ → Option Err
  pub send : ℕ → Msg Entity → Sent Err
  pub send_album : ℕ → List (Msg Entity) → Sent Err
  pub persist : ℕ → Persist → Option Err
  pub fetch : ℕ → Request → Result Err (List (Msg Entity))

-- What the copy does besides, in order: the counters of the program, the quota, the database, and
-- what it records of the messages that it is done with.
pub data CopyEffect (Entity : Type 0) : Type 0 where
  filtered : ℕ → CopyEffect Entity
  failed : ℕ → CopyEffect Entity
  succeeded : ℕ → CopyEffect Entity
  charged : ℕ → CopyEffect Entity
  persisted : Persist → CopyEffect Entity
  recorded : List (Msg Entity) → ℕ → ℕ → CopyEffect Entity

-- The state of a copy. `taken` are the messages that were recorded, in order. `max_seen`, of the copy
-- from new to old, is both maxSeen and persistedMaxSeen, which agree between pages.
pub record Copy (Entity : Type 0) : Type 0 where
  pub cursor : ℤ
  pub include_once : Bool
  pub processed : ℕ
  pub advanced : Bool
  pub max_seen : ℤ
  pub turn : ℕ
  pub taken : List (Msg Entity)
  pub effects : List (CopyEffect Entity)

-- The mode of a copy: which IDs are passed over at a cursor (with equality allowed or not), the
-- cursor after a group, and what is persisted of it.
pub record Mode (Entity : Type 0) : Type 0 where
  pub skips : Bool → ℤ → ℤ → Bool
  pub edge : List (Msg Entity) → ℤ
  pub persist_of : ℤ → Persist
  pub less : Msg Entity → Msg Entity → Bool

-- Whether the function returns, with its error if it has one, or goes on with the messages left.
pub data Step (Err Entity : Type 0) : Type 0 where
  done : Option Err → Copy Entity → Step Err Entity
  next : List (Msg Entity) → Copy Entity → Step Err Entity

module _ {Entity : Type 0} where
  unfoldable pub note : CopyEffect Entity → Copy Entity → Copy Entity
  note e st = record st { effects = st.effects ++ e ∷ [] }

  unfoldable pub note_if : ℕ → CopyEffect Entity → Copy Entity → Copy Entity
  note_if n e st = if eqb n 0 then st else note e st

  -- The messages of a group from the front of a page, and what is behind them: it ends before the
  -- first message of another group or with no media.
  unfoldable pub in_group : ℤ → Msg Entity → Bool
  in_group gid msg = eqb_ℤ msg.grouped_id gid && msg.has_media

  unfoldable pub put_group :
      Bool
      → Msg Entity
      → List (Msg Entity) × List (Msg Entity)
      → List (Msg Entity) × List (Msg Entity)
  put_group skipped msg (group, rest) = if skipped then (group, rest) else (msg ∷ group, rest)

  unfoldable pub split_group :
      (ℤ → Bool) → ℤ → List (Msg Entity) → List (Msg Entity) × List (Msg Entity)
  split_group skipped gid [] = ([], [])
  split_group skipped gid (msg ∷ rest) =
      let later = split_group skipped gid rest in
      if in_group gid msg then put_group (skipped msg.id) msg later else ([], msg ∷ rest)

  unfoldable pub carrier_of : MediaGroupPlan Entity → Option (Msg Entity)
  carrier_of plan = elim plan.text [
    | some msg ↦ some msg
    | none ↦ elim plan.media [ [] ↦ none | first ∷ rest ↦ some first ]
  ]

  -- The plan with its carrier replaced.
  unfoldable pub with_carrier : Msg Entity → MediaGroupPlan Entity → MediaGroupPlan Entity
  with_carrier out plan = elim plan.text [
    | some msg ↦ record plan { text = some out }
    | none ↦ elim plan.media [ [] ↦ plan | first ∷ rest ↦ record plan { media = out ∷ rest } ]
  ]

-- `if err != nil { return err }`
unfoldable pub or_stop :
    {Err Entity : Type 0} → Option Err → Copy Entity → Step Err Entity → Step Err Entity
or_stop none st later = later
or_stop (some e) st later = done (some e) st

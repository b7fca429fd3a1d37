-- ===== src/Silver/Stream.antt =====
-- `build_stream` and `main` of src/fleetstream/streaming/silver_transform.py: the micro-batches that Spark
-- makes of the rows that arrive from Bronze, and the tables after them. A parameter is what
-- `dropDuplicatesWithinWatermark` delivers.
use fleet_stream_real_time_f.Prelude.{
  String, Option, none, some, Bool, true, List, [], ◌∷◌, map, ◌≡◌, ◌⊎◌, Elem, if◌then◌else◌,
}
use fleet_stream_real_time_f.Prelude.Int.{ℤ, ℤ, pos, ltb_ℤ, ◌-ℤ◌}
use fleet_stream_real_time_f.Quality.Rules.{Rule}
use fleet_stream_real_time_f.Silver.Rows.{BronzeRow, SilverRow}
use fleet_stream_real_time_f.Silver.Write.{Lake, Call, write_batch}

-- WATERMARK_DELAY, ten minutes
abbrev pub watermark_delay : ℤ
watermark_delay = pos 600_000_000

abbrev pub later : ℤ → ℤ → ℤ
later a b = if ltb_ℤ a b then b else a

abbrev pub behind : ℤ → Option ℤ → ℤ
behind w none = w
behind w (some t) = later w (t -ℤ watermark_delay)

abbrev pub raised : ℤ → List BronzeRow → ℤ
raised w [] = w
raised w (b ∷ rows) = behind (raised w rows) b.reading.event_time

-- The watermark after the rows that have arrived, the latest first: the delay behind the newest event time.
-- It begins at the epoch and never moves back.
unfoldable pub watermark : List (List BronzeRow) → ℤ
unfolding ◌-ℤ◌
watermark [] = pos 0
watermark (rows ∷ earlier) = raised (watermark earlier) rows

abbrev pub event_ids : List BronzeRow → List (Option String)
event_ids = map (λ (b : BronzeRow). b.reading.event_id)

-- a row was delivered with this event_id, when the rows arrived
abbrev pub IsDelivered :
    (List (List BronzeRow) → List BronzeRow → List BronzeRow)
    → String
    → List (List BronzeRow)
    → Type 0
IsDelivered deliver k [] = ⊥
IsDelivered deliver k (rows ∷ earlier) =
    Elem (some k) (event_ids (deliver earlier rows)) ⊎ IsDelivered deliver k earlier

-- What Spark documents of `dropDuplicatesWithinWatermark(["event_id"])`.
pub record IsDeduplication (deliver : List (List BronzeRow) → List BronzeRow → List BronzeRow)
    : Type 0 where
  -- it makes no rows up
  pub genuine :
      (earlier : List (List BronzeRow)) (rows : List BronzeRow) (b : BronzeRow)
      → Elem b (deliver earlier rows)
      → Elem b rows
  -- too late data, older than the watermark, are dropped
  pub timely :
      (earlier : List (List BronzeRow)) (rows : List BronzeRow) (b : BronzeRow) (t : ℤ)
      → Elem b (deliver earlier rows)
      → b.reading.event_time ≡ some t
      → ltb_ℤ t (watermark earlier) ≡ true
      → ⊥
  -- other rows are dropped only as duplicates of one that was delivered
  pub covers :
      (earlier : List (List BronzeRow)) (rows : List BronzeRow) (b : BronzeRow) (k : String) (t : ℤ)
      → Elem b rows
      → b.reading.event_id ≡ some k
      → b.reading.event_time ≡ some t
      → ltb_ℤ (watermark earlier) t ≡ true
      → IsDelivered deliver k (rows ∷ earlier)

module _ (evaluate : ℤ → String → BronzeRow → Option Bool) (rules : List Rule)
    (sha2 : String → String)
    (merge : List SilverRow → List SilverRow → Option (List SilverRow)) where
  -- the tables after `foreachBatch` has processed the batches
  abbrev pub batches : List (Call evaluate rules sha2 merge × List BronzeRow) → Lake → Lake
  batches [] lake = lake
  batches ((call, rows) ∷ more) lake =
      batches more (write_batch evaluate rules sha2 merge call rows lake).1

  -- a batch of rows of Bronze, at one of the times
  abbrev pub IsFed :
      (ℤ → Type 0) → List BronzeRow → Call evaluate rules sha2 merge × List BronzeRow → Type 0
  IsFed IsTime bronze c = IsTime c.0.now × ((b : BronzeRow) → Elem b c.1 → Elem b bronze)

  -- what arrives becomes what is delivered
  unfoldable pub build_stream :
      (List (List BronzeRow) → List BronzeRow → List BronzeRow)
      → List (List BronzeRow)
      → List (Call evaluate rules sha2 merge × List BronzeRow)
      → List (Call evaluate rules sha2 merge × List BronzeRow)
  build_stream deliver earlier [] = []
  build_stream deliver earlier ((call, rows) ∷ more) =
      (call, deliver earlier rows) ∷ build_stream deliver (rows ∷ earlier) more

  -- the tables after the query has read what arrives
  unfoldable pub transform :
      (List (List BronzeRow) → List BronzeRow → List BronzeRow)
      → List (Call evaluate rules sha2 merge × List BronzeRow)
      → Lake
      → Lake
  unfolding build_stream
  transform deliver arrivals lake = batches (build_stream deliver [] arrivals) lake

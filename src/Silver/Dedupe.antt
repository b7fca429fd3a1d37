-- ===== src/Silver/Dedupe.antt =====
-- `_dedupe_within_batch` of src/fleetstream/streaming/silver_transform.py: of the rows with one
-- event_id the one that `row_number()` numbers 1 in its window, the newest by ingestion and offset.
-- Of rows that tie, which Spark leaves open, the last is kept.
use fleet_stream_real_time_f.Prelude.{
  String, str_eq, Option, none, some, Bool, true, false, not, ◌||◌, ◌&&◌, List, [], ◌∷◌, ltb,
  if◌then◌else◌,
}
use fleet_stream_real_time_f.Prelude.Int.{ltb_ℤ}
use fleet_stream_real_time_f.Silver.Rows.{SilverRow, key}

-- equality in PARTITION BY: NULLs stand together
unfoldable pub same_key : Option String → Option String → Bool
same_key none none = true
same_key (some a) (some b) = str_eq a b
same_key _ _ = false

-- ORDER BY ingestion_time DESC, kafka_offset DESC
unfoldable pub precedes : SilverRow → SilverRow → Bool
precedes a b =
    let s = a.provenance in
    let t = b.provenance in
    ltb_ℤ t.ingestion_time s.ingestion_time
    || (not (ltb_ℤ s.ingestion_time t.ingestion_time) && ltb t.kafka_offset s.kafka_offset)

unfoldable pub keep_newest : SilverRow → List SilverRow → List SilverRow
unfolding same_key precedes
keep_newest r [] = r ∷ []
keep_newest r (x ∷ xs) =
    let rest = keep_newest r xs in
    if same_key (key r) (key x) then (if precedes r x then r else x) ∷ xs else x ∷ rest

unfoldable pub dedupe : List SilverRow → List SilverRow
unfolding keep_newest
dedupe [] = []
dedupe (r ∷ rows) = keep_newest r (dedupe rows)

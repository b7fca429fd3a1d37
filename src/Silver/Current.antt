-- ===== src/Silver/Current.antt =====
-- Which row Silver holds for an event_id after the batches of src/fleetstream/streaming/silver_transform.py: the
-- last one written.
use fleet_stream_real_time_f.Prelude.{
  String, Option, Bool, false, not, ◌||◌, ◌&&◌, List, [], ◌∷◌, ◌≡◌, ◌⊎◌, ltb, Elem,
}
use fleet_stream_real_time_f.Prelude.Int.{ℤ, ltb_ℤ}
use fleet_stream_real_time_f.Quality.Rules.{Rule}
use fleet_stream_real_time_f.Silver.Rows.{Provenance, BronzeRow, DimVehicle, DimDriver, SilverRow}
use fleet_stream_real_time_f.Silver.Write.{Call}
use fleet_stream_real_time_f.Silver.Enrichment.{IsJoined, IsAttributed}
use fleet_stream_real_time_f.Silver.Sequence.{IsValidAs, Offers}

-- ingested later, or at the same time with a higher offset
abbrev pub is_newer : Provenance → Provenance → Bool
is_newer s t =
    ltb_ℤ t.ingestion_time s.ingestion_time
    || (not (ltb_ℤ s.ingestion_time t.ingestion_time) && ltb t.kafka_offset s.kafka_offset)

module _ (evaluate : ℤ → String → BronzeRow → Option Bool) (rules : List Rule)
    (sha2 : String → String) (merge : List SilverRow → List SilverRow → Option (List SilverRow))
    (vehicles : List DimVehicle) (drivers : List DimDriver) where
  -- The row has the columns of its vehicle and driver, where the dimensions have them, and of the newest row of the batch that has the event_id and is valid.
  abbrev pub IsNewestOf :
      String → SilverRow → Call evaluate rules sha2 merge → List BronzeRow → Type 0
  IsNewestOf k row call rows =
      (b : BronzeRow) × Elem b rows
      × IsValidAs evaluate rules sha2 merge k call.now b
      × ((v : Option DimVehicle) × (d : Option DimDriver) × IsJoined (λ x. x.vehicle_id)
            b.reading.vehicle_id vehicles v
          × IsJoined (λ x. x.driver_id) b.reading.driver_id drivers d
          × IsAttributed call.now call.run_id b v d row)
      × ((c : BronzeRow)
          → Elem c rows
          → IsValidAs evaluate rules sha2 merge k call.now c
          → is_newer c.provenance b.provenance ≡ false)

  -- it is that of a batch, and no later batch has a valid row with the event_id
  abbrev pub IsLastOf :
      String → SilverRow → List (Call evaluate rules sha2 merge × List BronzeRow) → Type 0
  IsLastOf k row [] = ⊥
  IsLastOf k row ((call, rows) ∷ more) =
      IsLastOf k row more
      ⊎ (IsNewestOf k row call rows × (Offers evaluate rules sha2 merge k more → ⊥))

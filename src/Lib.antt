-- ===== src/Lib.antt =====
-- FleetStream simulates a fleet of vehicles, sends their telemetry to Kafka, and refines it with Spark
-- from Bronze through Silver. This library models the parts of it that decide what is produced, kept,
-- diverted and counted.
--
-- The simulator. `Config` is src/fleetstream/common/config.py: the simulator's part and its validation,
-- `Config.Environment` the reading of variables, `Config.Parts` the other parts. `Reference` is
-- src/fleetstream/simulator/reference.py: `Reference.Geometry` has the profiles and distances,
-- `Reference.Tables` the tables, `Reference.Build` build_routes and build_reference; what is proved of the fleet
-- that it builds stands in `Fleet`. `Vehicle` is src/fleetstream/simulator/vehicle.py:
-- `Vehicle.State` has the record of a VehicleSimulator, its start_trip, end_trip and temperature,
-- `Vehicle.Position` is position_at, `Vehicle.Tick` is VehicleSimulator.tick, and `Vehicle.Fleet` is
-- build_simulators. `Payload` is TelemetryEvent.to_dict and `corrupt`. `Generator` is
-- src/fleetstream/simulator/generator.py: `Generator.Heap` is the heap of late events, `Generator.State` the
-- state of a TelemetryGenerator, `Generator.Stream` its process, tick and run. A generator function
-- becomes the list of what it yields, an exception `none`. The order and the release of late events stand in
-- `Generator.Order`, `Generator.Punctual` and `Generator.Release`. `Simulation` puts the generator and the vehicles
-- together, as TelemetryGenerator.__init__ does.
--
-- `Producer` is `run` of src/fleetstream/simulator/producer.py: `Producer.Loop` has the loop over the ticks and
-- the end of the run, over a Kafka client with two operations, of which one may raise; the shutdown flag is a function of the tick.
-- `Producer.Program` is the whole of `run`, with the fleet that it builds, and `Producer.Command` is main from the parsed
-- arguments on.
--
-- The pipeline. `Bronze` is what build_stream of src/fleetstream/streaming/bronze_ingest.py makes of a Kafka
-- message. `Quality` is src/fleetstream/quality/engine.py: `Quality.Rules` has the rules and their
-- loading, `Quality.Engine` has apply_rules and split; `Quality.Standard` has the rules of
-- src/fleetstream/quality/rules.yml. `Reconciliation` is
-- src/fleetstream/quality/reconciliation.py. `Silver` is src/fleetstream/streaming/silver_transform.py:
-- `Silver.Rows` has the columns of src/fleetstream/common/schemas.py, `Silver.Dedupe` is
-- _dedupe_within_batch, `Silver.Write` is enrich and write_batch; what is proved of a batch stands in
-- `Silver.Batches` and `Silver.Counting`. `Silver.Stream` is build_stream and the batches that main has Spark
-- process: what arrives, what is delivered of it, and the tables after it; what is proved of such sequences stands in
-- `Silver.Sequence`, `Silver.Unique` and `Silver.Current`. A DataFrame is the list of its rows; a
-- table is a list in the record `Lake`, which write_batch takes and gives back. `Incidents` is `detect` of
-- src/fleetstream/streaming/incident_detector.py, and `Incidents.Publish` the query of its main. `Maintenance` is
-- src/fleetstream/maintenance/table_maintenance.py over a catalog that answers statements or raises, and
-- `Maintenance.Command` its main from the parsed arguments on; `Maintenance.Pipeline` is
-- airflow/dags/fleetstream_maintenance.py. `Verify` is
-- src/fleetstream/jobs/verify.py: `Verify.Checks` and `Verify.Contents` have the checks, by the status that they
-- report, `Verify.Suite` has main, and `Verify.Verdict` takes main to tables that the batches have filled. `Dimensions` is src/fleetstream/jobs/seed_dimensions.py with load_dimensions
-- of the Silver transform. `Daily` has the tasks of airflow/dags/fleetstream_daily.py, and `Daily.Run` its runs.
-- `Airflow` says what a run of a task graph is: a log of successes that grows by steps, in which a task may fail and be
-- tried again.
--
-- `Schemas` is src/fleetstream/common/schemas.py: the fields, the DDL of columns and the JSON Schema. `Catalog` is
-- src/fleetstream/common/iceberg.py and src/fleetstream/jobs/bootstrap_catalog.py over a record of what SQL does.
--
-- `Detection` follows a record from the simulator to the quarantine: `Detection.Sql` says what the predicates of the
-- rules mean, `Detection.Wire` what the JSON libraries do with a payload. `Generator.Origin` says what the generator
-- yields, and `Delivery` follows the messages of a topic to Silver.
--
-- Numbers. Floating point is the interface `Float`: its operations, and as `IsLawful` the laws of order and
-- rounding that the theorems use, which hold of IEEE doubles that are not NaN. `Float.Fixed` fills it with
-- decimals of six places, for examples. Its division is total: where the divisor may be 0 in Python, in the
-- fuel level of a vehicle, the tick tests for it and raises. What goes on the wire is in whole millionths, as an integer, and
-- instants are in microseconds. Draws are the interface `Random`, with the documented range of
-- `random` and `uniform` as `IsInRange`. A sequence that Python indexes or draws from is `Choices`, which
-- is not empty.
--
-- Parameters. uuid5, sha2, the trigonometric functions, the text functions str.strip, str.lower and
-- str.split, the evaluation of SQL predicates, which is given the clock of the batch, and MERGE, of which `Silver.Merge` states as `IsMerge` what
-- Iceberg documents; `Tests.Upsert` has a function with these laws. dropDuplicatesWithinWatermark is a parameter with the laws
-- `IsDeduplication`, of which `Tests.Streaming` has an instance. json.dumps and from_json are parameters, of which
-- `IsCodec` says what they do with the payload at hand, and `IsSql` what SQL makes of each rule.
--
-- Loops are structural: on the vehicles, the ticks, the sub-ticks, the rows. No fuel is needed; the two
-- loops that empty the heap recurse on it.
--
-- Not modelled: the configuration of Spark, Kafka, Airflow, dbt and Trino, logging, the reading of files, the
-- parsing of command lines, and the text of CREATE TABLE around the columns.
-- The tick computes without the table of distances that position_at keeps, which `Vehicle.Position` has beside it.
-- The producer starts between the epoch and the end of the year 9999; a start outside of that ends the model.
pub mod Prelude
pub mod Float
pub mod Random
pub mod Config
pub mod Payload
pub mod Generator
pub mod Reference
pub mod Vehicle
pub mod Simulation
pub mod Tests
pub mod Quality
pub mod Reconciliation
pub mod Silver
pub mod Producer
pub mod Incidents
pub mod Maintenance
pub mod Verify
pub mod Fleet
pub mod Catalog
pub mod Schemas
pub mod Daily
pub mod Dimensions
pub mod Airflow
pub mod Bronze
pub mod Delivery
pub mod Detection

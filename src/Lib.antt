-- ===== src/Lib.antt =====
-- Version Guard finds cloud resources that run versions of software near or past their end of life.
-- This library models its decision logic and its data flow, from the dates of a release cycle to the
-- snapshot of a scan, and proves what that logic guarantees.
--
-- The parts, and where they are modelled:
--   Base          what the modules share: tests on numbers, lists, Go's string functions and maps
--   Types         pkg/types: statuses, causes, resources, lifecycles, findings, the lifecycle block
--   Policy        pkg/policy: `Classify`, `UnknownCause` and `GetMessage` of the standard policy
--   EndOfLife     pkg/eol/endoflife: the dates of a cycle (Dates), the standard and the declarative
--                 schema adapter (Standard, Declarative) and their registry (Registry), the validation
--                 of a cycle (Validation), the provider with its cache and its search (Provider), and
--                 the client of the API (Client)
--   Store         pkg/store: the memory store of findings
--   Snapshot      pkg/snapshot: a snapshot and its statistics (builder.go), the store in memory
--                 (memory_store.go: Memory, Listing) and the store in S3 (store.go: Bucket)
--   Detection     pkg/workflow/detection: the five activities and the workflow of one resource type
--   Orchestrator  pkg/workflow/orchestrator: the scan of all types and its snapshot,
--                 and the webhook of the emitter (Notify)
--   Scan          pkg/scan: a scan on demand, and over HTTP
--   Schedule      pkg/schedule: the Temporal schedule of the scans
--   Config        pkg/config: the configuration of the resources, its validation (Config) and that of
--                 the transforms (Transforms)
--   Inventory     pkg/inventory/wiz: the columns of a report (Columns), the fields of a resource
--                 (Transforms, Names, Tags), the cache of reports (Client), the requests for them
--                 (Http), the rows (Source) and the listing (Report)
--   Override      deploy/endoflife-override: the validation of the local overrides of endoflife.date,
--                 with the functions of `path/filepath` that it calls (Paths)
--   Samples       the data of the tests; the modules named Tests hold tests and examples
--
-- How they interact: the loader hands each validated resource configuration to an inventory
-- source, which turns the rows of a report of Wiz into resources as the configuration
-- declares. The schedule or a request starts a scan. A scan runs one detection workflow for
-- each resource type. It lists resources, asks the type's provider for a lifecycle of each
-- version, classifies each resource by the policy, and replaces the findings of the type in
-- the store. The activities hand resources and findings on by batches in a shared cache. The
-- orchestrator then builds a snapshot of the store's findings of the types that succeeded,
-- validates it, and saves it. The overrides are cycles that a proxy serves in place of those of
-- endoflife.date, and are validated before they are deployed.
--
-- State is passed explicitly: `Detection.State` holds the batch cache and the store,
-- `EndOfLife.Provider.State` the provider's cache, `Inventory.Client.Client` that of the
-- reports. The functions of the source keep their names, in snake case. A reading of the clock
-- is an argument, one for each call of `time.Now` that matters.
-- Loops are over lists, over the characters of a text, over the pages that S3 answers with, or
-- over the five tries of a request, so no other fuel is needed. Times are nanoseconds since
-- the year 0, and Go's `Duration` saturates as written in `days_until` and `elapsed`. Counters
-- are unbounded: they count list elements, which fit in Go's 64-bit `int`.
--
-- Parameters: the HTTP answers of endoflife.date, the clients of Wiz, of S3 and of Temporal's schedules, the
-- YAML, JSON and CSV decoders, the ARN parser and the regular expression of regions, the file
-- system, Temporal (the outcomes of children, `GetVersion`, the start of a workflow), the
-- formats of dates and numbers, the table of `unicode.ToLower`, the inventory source of a
-- detection, the snapshot store of the orchestrator, and the answers of the emitter's webhook.
--
-- Not modelled: logs, telemetry, error texts, JSON and HTTP transport, the listing of the S3
-- store, Temporal's retries and sessions, concurrency inside the provider and the client of
-- reports, the rounding of `float64` percentages, the commands, emitters and mocks.
pub mod Base
pub mod Types
pub mod Policy
pub mod EndOfLife
pub mod Store
pub mod Snapshot
pub mod Detection
pub mod Orchestrator
pub mod Scan
pub mod Schedule
pub mod Config
pub mod Inventory
pub mod Override
pub mod Samples

-- ===== src/Lib.antt =====
-- netbox-scripts: verification of the core of the plugin, the life of a Script Project.
--
-- A Script Project takes a tree of Python files, stores each distinct tree under its digest as a
-- revision, validates the revision, and activates it, which brings the project's Script rows in
-- line with what the revision publishes. The parts, with the files that model them:
--
--   Text, Unicode     Python's str as a list of code points, and its methods that the source calls.
--                     The Unicode tables (NFC, lower case, identifiers) are a parameter.
--   Names             netbox_scripts/utils.py: data_source_relative_path,
--                     source_path_to_dotted_name.
--   DataPaths         netbox_scripts/validators.py: data_paths_overlap, normalize_data_path.
--   Json              the JSON values of the database's columns, and json.dumps in canonical form.
--   Paths             netbox_scripts/storage/paths.py: normalize_source_path (check_text before the
--                     text is cut, check_segments after), the case-insensitive tree nodes (Nodes)
--                     and the storage keys (Keys). Paths/Recheck is about a second normalization.
--   Corrupt           the reasons of RevisionCorruptError (netbox_scripts/storage/exceptions.py).
--   Manifest          netbox_scripts/storage/manifest.py: build_manifest, whose loop is walk, then
--                     reject_path_conflicts and limit_errors; compute_digest; Manifest/Validate has
--                     validate_manifest. Manifest/Build and Manifest/RoundTrip hold the proofs.
--   ScriptFiles       netbox_scripts/storage/script_files.py: the snapshot of the declared files
--                     and its return trip.
--   Backend, Store    netbox_scripts/storage/store.py over any Django storage backend: writing,
--                     verifying, reading and deleting a stored tree; Store/Entries has one file.
--                     Store/Measure is about the bounded read, Store/Verified about one file,
--                     Store/Trees about a tree.
--   Introspection     validate_discovered_scripts of netbox_scripts/runtime/introspection.py;
--                     Introspection/Describe has describe_script.
--   Declarations      the Script File rows of a project: ScriptFile (netbox_scripts/models/scripts.py),
--                     select_script_files (models/projects.py) and declare_script_file (ingestion.py).
--   Lifecycle         the rows of one project (netbox_scripts/models/projects.py and scripts.py,
--                     choices.py, constants.py) and the conditional updates on them.
--   Staging           netbox_scripts/storage/service.py: stage_revision and
--                     refresh_revision_script_files.
--   Scripts           synchronize_scripts of netbox_scripts/activation.py.
--   Activation        activate_revision and deactivate_revision (netbox_scripts/activation.py) with
--                     promote_revision and _promote (netbox_scripts/storage/service.py).
--   Validation        the claim, the lease and the fenced ends of validate_revision
--                     (netbox_scripts/validation.py); Validation/Judging is its loop over the
--                     Script Files and the verdict, Validation/Worker a whole run,
--                     Validation/Results what it records on the Script Files (Settled one run,
--                     Latest several).
--   History           every sequence of these calls on one project, as a step relation.
--   Migration         netbox_scripts/migration/. Plan is plan.py: the projects that the legacy
--                     modules are grouped into. Run is MigrationRun (models/migration.py). Cutover
--                     has the passes (cutover.py, references.py, cleanup.py, the staging job of
--                     jobs.py) as moves of the run; Cutover/Order, Forward and Errors are about
--                     sequences of them. Cutover/Schedules has the outcome of one captured job
--                     and whether recreate_schedules replays it.
--   Tests             concrete inputs.
--
-- Staging calls Manifest, ScriptFiles and Store; Activation calls Introspection, Store (through
-- verify_stored of Staging) and Scripts; all of them read and write the Rows of Lifecycle, and
-- World of Staging is those rows with the state of the backend.
--
-- Conventions. A database transaction is a function from rows to a result and rows, and an error
-- leaves the rows as they were (atomic). Calls under the project lock are single steps. A record of
-- the database is found by its primary key; keys and times are numbers. Messages for people,
-- translations, logging and change logs are left out; an exception is its class and code. A text is
-- a list of code points with no lone surrogate among them, since encode('utf-8') raises on one.
-- SHA-256, uuid.UUID and the Unicode tables are parameters, with what the proofs need of them as
-- hypotheses: normalization is idempotent and works between slashes, a digest is 64 hex digits, a
-- UUID prints as 36 characters, an identifier has neither white space nor colons.
--
-- Fuel. measure_loop has as fuel the number of bytes that may still be read: each round reads one
-- byte at least, so it never runs out. decimal of Json prints a number with the number as fuel,
-- which exceeds the count of its digits. Every other loop is structural.
--
-- Not modelled: the import of the code of a revision and its execution (runtime/loader, discovery,
-- cache, execution, jobs: they run Python), what a migration does to NetBox's own
-- tables, ingestion, permissions, and the forms, tables, views, filters, REST
-- and GraphQL layers, which declare Django classes.
pub mod Base
pub mod Text
pub mod Unicode
pub mod Names
pub mod DataPaths
pub mod Json
pub mod Paths
pub mod Corrupt
pub mod Manifest
pub mod ScriptFiles
pub mod Backend
pub mod Store
pub mod Introspection
pub mod Lifecycle
pub mod Staging
pub mod Scripts
pub mod Activation
pub mod Validation
pub mod Migration
pub mod Declarations
pub mod History
pub mod Tests

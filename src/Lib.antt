-- ===== src/Lib.antt =====
-- azure-init: a model of the agent and of its KVP library, and what is proved of them.
--
-- azure-init provisions Linux guests on Azure: it asks the metadata service (IMDS) who the user is,
-- sets the host's name, creates the user, and sets up the password and SSH; it leaves a file that
-- says so, and reports to the wireserver (libazureinit). It also reports to the host through the
-- Hyper-V KVP pool, a file of fixed-width key and value records that several processes write. The
-- crate libazureinit-kvp owns that file format (libazureinit-kvp/src/store.rs) and puts diagnostic
-- records and provisioning reports on top of it (libazureinit-kvp/src/diagnostics, report.rs).
--
-- Which file models what:
--   Kvp/Error        libazureinit-kvp/src/error.rs.
--   Kvp/Store/Policy, Record, KeySet
--                    the limits, the checks of keys and values, and the record format of store.rs.
--   Kvp/Store/World  what the store asks of the system, `SysOps` and `Handle`: a world with one pool
--                    file, the open handle's cursor and locks, and a list of faults. Each call takes
--                    the next fault: it passes, or fails with an error, and a failed write may have
--                    written a part. An operation is a function from a world to an outcome and a
--                    world, so an error keeps what was done before it.
--   Kvp/Store/Iter   `KvpPoolIter`: the lock, and the cursor that reads, overwrites, removes and adds
--                    records. `fill_slot` is the branch of `remove_current` that moves the last
--                    record.
--   Kvp/Store/Pool   `KvpPoolStore`: one function for each operation, with its name. A `while` loop
--                    over the iterator is `repeat` with a function for its round.
--   Kvp/Store/Pool/* the proofs, by what they show; `Rules` has the predicate `Contains es w`: the
--                    pool file of `w` holds the entries `es` in order, or is absent and `es` is
--                    empty, and no call is going to fail. The files on termination have worlds where
--                    calls fail too.
--   Kvp/Diagnostics  the diagnostic model, payload encoding, writer and reader of
--                    libazureinit-kvp/src/diagnostics. CloudInit is cloud_init.rs, the events that
--                    cloud-init writes; Entries is `decode_entries` of reader.rs, which makes entries
--                    of a whole dump.
--   Kvp/Report       the provisioning report of libazureinit-kvp/src/report.rs.
--   Kvp/VmId         the id of the VM, libazureinit-kvp/src/vm_id.rs.
--   Kvp/Cli          commands of the tool on a pool, libazureinit-kvp/src/cli.rs.
--   Init/Error       errors and their reports, libazureinit/src/error.rs, with the encoding of
--                    libazureinit/src/health.rs; the reports are read by Kvp/Report.
--   Init/Http, Imds, Health
--                    requests with their retries, the query for metadata and the health report,
--                    libazureinit/src/http.rs, imds.rs and health.rs. The latter two call the first.
--   Init/Status      the files that say that a VM is provisioned, libazureinit/src/status.rs, and
--                    the clean command of src/main.rs.
--   Init/Media       the media with an ovf-env, libazureinit/src/media.rs.
--   Init/Main        a run of the agent, src/main.rs: it calls all of the above.
--   Init/Machine     the machine that is provisioned: the log of what was done to it, how each act
--                    turns out, and its files by their paths, which opening and writing change.
--   Init/Provision   libazureinit/src/provision: Provision itself with mod.rs, hostname.rs, user.rs
--                    and password.rs, Provision/Ssh with ssh.rs. Provision/Effects has `Keeps`: what
--                    holds along every step that provisioning may take.
--   Prelude, Result, Utf8, Text
--                    shared: lists and Booleans over the native numbers, `Result` with its do blocks,
--                    UTF-8 as the standard library checks it, splitting text, decimal numbers.
--
-- Conventions. Text is its list of UTF-8 bytes; a byte is a number. Times are signed numbers of
-- seconds. The fields of a struct keep their names; a method of an iterator takes the iterator.
--
-- Bounds. A loop over the iterator gets as many rounds as there are records and one more: each round
-- reads a record and comes closer to the end, also where it removes one, since the last record takes
-- the place of the removed one and is then read next. The loop of `frame_records` gets as many slots
-- as chunks are allowed, which is the limit that the code checks itself. A request is tried as often
-- as its time limit has units of time, and once more, and a query or a report makes requests by the
-- same rule: each retry waits, so that time runs out first.
--
-- Parameters. `External` holds the functions of other crates (uuid, chrono, base64, flate2 and the
-- parsing of floats); `Inverts` states that base64 and the compressors undo themselves. `Csv` holds
-- what reports take from csv and chrono; `CsvLaws` states that csv writes a record in its format and
-- reads it back. `SerdeJson` holds JSON values and floats. A hash map is visited in the order of a
-- parameter. The server, tokio's timeout (`Expires`), the machine's files and programs, the user
-- database, the two uses of a regular expression (`Regex`), and white space and lower case of a VM's
-- id, which go by the tables of Unicode, are parameters as well.
--
-- Not modelled: contention for the locks, since one process has the file; `parse_proc_stat_btime`;
-- JSON serialization and error messages; of the KVP tool the arguments, and the commands info, entries
-- and dump --parse; the parsing and merging of the configuration; the parsing of ovf-env's XML and of
-- the mount table; logging and the tracing layers; of src/main.rs the arguments, the version's text
-- and a configuration that fails to load; and the copy of the VM id's code in
-- libazureinit/src/status.rs.
pub mod Prelude
pub mod Result
pub mod Utf8
pub mod Text
pub mod Kvp
pub mod Init

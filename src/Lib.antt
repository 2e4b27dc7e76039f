-- ===== src/Lib.antt =====
-- vm-rs boots virtual machines and connects them. This library models the parts of it that do not
-- depend on one platform, with the theorems that make them correct. Paths are those of the
-- repository.
--
-- The program. `VmManager` (src/vm/manager.rs) validates a `VmConfig` (src/config.rs), reserves its
-- name in a table of handles, and hands it to a `VmDriver` (src/driver/mod.rs). A driver boots a
-- machine with a hypervisor: src/driver/cloud_hv.rs with a process of Cloud Hypervisor on Linux,
-- src/driver/whp.rs with the Windows platform, for which src/driver/boot.rs writes the kernel, its
-- parameters and the page tables into the guest's memory. A guest gets its first configuration
-- from a seed image (src/setup/seed.rs), and the last command of that configuration writes a marker
-- with the guest's address to the serial log, which src/driver/ready.rs scans and
-- `wait_all_ready` waits for. Guests reach each other through an Ethernet switch
-- (src/network/switch.rs). The kernel and the disk come from a cloud image, which
-- src/setup/image.rs downloads and verifies; images of containers are pulled from a registry
-- (src/oci/registry.rs) into a store of blobs by their digest (src/oci/store.rs).
--
-- The files.
--   Prelude         shared names; Prelude/Split cuts and replaces texts at one character; Prelude/Tests Boolean tests and the lemmas that link them to
--                   propositions; Prelude/Lists lists over native numbers; Prelude/Text Rust
--                   strings as lists of code points; Prelude/Find searches in texts; Prelude/Map
--                   `HashMap<String, _>` as an association list with one entry per key
--   Result, Exec    `Result` and the errors of src/driver/mod.rs; methods on shared state as
--                   functions from a state to a result and a state; Exec/Rules about chains of them
--   Paths           `Path::join`, `Path::parent` and `Path::with_extension` on Unix paths
--   Disk            the calls of `std::fs` on a disk of files and directories that fail when the
--                   list of failures says so. A path is its text: `..` and symbolic links are
--                   not resolved. Disk/Writing for what a call leaves of the files
--   Config          src/config.rs; Config/Validation for `VmConfig::validate`
--   Driver          the trait of src/driver/mod.rs, as a record that clients take as a parameter
--   Manager         src/vm/manager.rs: each method under its own name; Manager/Start,
--                   Manager/Transitions and Manager/Waiting are about single methods,
--                   Manager/Calls about sequences of them
--   Switch          src/network/switch.rs: `turn` is one turn of `forwarding_loop`, and
--                   `handle_event` the body of its loop over the ports; Switch/Forwarding,
--                   Switch/Learning, Switch/Invariant and Switch/Actions
--   Boot            src/driver/boot.rs over the memory of Boot/Memory; Boot/PageTables for
--                   `setup_page_tables`, Boot/Loading for `load_kernel_from_bytes`
--   Seed            src/setup/seed.rs: the checks and the two texts; Seed/Iso `create_seed_iso`;
--                   Seed/Quoting, Seed/Breaks, Seed/Parts, Seed/Lines, Seed/Network, Seed/Cleanup, Seed/Watched
--   Ready           src/driver/ready.rs; Ready/Overlap and Ready/Scanning
--   CloudHv         the part of src/driver/cloud_hv.rs that answers `state`; CloudHv/Processes its
--                   waiting loops and clean-up, CloudHv/Stopping `stop` and `kill`,
--                   CloudHv/Booting `boot` and the driver as a whole; CloudHv/Identity,
--                   CloudHv/Reports, CloudHv/Logged, CloudHv/Cleaning and CloudHv/Tracking
--   Registry        image references and errors in src/oci/registry.rs; Registry/Parsing
--   Store           src/oci/store.rs: blobs and manifests; Store/Manifests the parsing of
--                   manifests and configurations, Store/Listing `list_images`, Store/Layers
--                   `extract_layers`; Store/Blobs, Store/Addressed, Store/Presence,
--                   Store/RoundTrip, Store/Parsing
--   Pull            the requests of src/oci/registry.rs; Pull/Auth `authenticate`, Pull/Platform
--                   `resolve_platform_manifest`, Pull/Download `pull`; Pull/Keeping and
--                   Pull/Completeness
--   Images          src/setup/image.rs: catalog, checksums and downloads; Images/Preparing
--                   `prepare_image`; Images/Assets, Images/Keeping, Images/Verified and
--                   Images/Complete
--   Bridge          src/network/bridge.rs; Bridge/Names for the names of interfaces
--   Clone           src/vm/disk.rs and src/setup/ssh.rs; Clone/Sizes
--   Examples        concrete inputs for the theorems
--
-- How the code is read. What the system returns, that is files, clocks, signals, datagrams and
-- results of programs, is an input of the model: a field of a record (`Host`, `SeedHost`,
-- `System`, `Client`, `Log`, `Round`) or an argument. Hash functions, decoders and HTTP clients
-- are such fields. A lock is a flag that says whether it is poisoned, and a method holds it for
-- the whole of each access, as the code does. A slice or an index out of bounds is a panic of
-- the memory monad. Logging is left out. A network of the switch is a list of descriptors; the
-- threads that add ports, start and stop the switch and turn its loop are interleaved as a
-- sequence of actions.
--
-- Bounds and fuel. The loop of `wait_all_ready` runs on fuel, one unit for each round; a round
-- ends with a sleep of one second, so that two more than the seconds of the timeout are enough
-- on a clock that does not go back. The loops that wait for a process or a socket run on two
-- rounds more than the intervals in their timeout; on a clock that stands still the wait for a
-- child ends with an error that only the model has, and the other waits like a timeout. A call
-- of the disk takes the next entry of its list of failures, and with an empty list nothing
-- fails. The numbers of the loader wrap where the code's do (`u64` and `u32` casts), and a
-- subtraction below zero is a panic, as in a build that checks for overflow. A number is
-- printed with up to 39 digits, more than any type of the code has.
--
-- Not modelled: src/driver/whp.rs, src/driver/apple_vz.rs and the bindings below src/ffi, which
-- mostly call their platform; src/network/port_forward.rs, which copies between sockets;
-- src/vm/platform.rs, which chooses a driver at build time.
pub mod Prelude
pub mod Result
pub mod Exec
pub mod Paths
pub mod Disk
pub mod Config
pub mod Driver
pub mod Manager
pub mod Switch
pub mod Boot
pub mod Seed
pub mod Ready
pub mod CloudHv
pub mod Store
pub mod Registry
pub mod Pull
pub mod Images
pub mod Bridge
pub mod Clone
pub mod Examples

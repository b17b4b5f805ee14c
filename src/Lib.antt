-- ===== src/Lib.antt =====
-- apexd, the daemon that manages APEX packages: the packages on the system partitions and on /data, which of
-- them is activated at boot, what is mounted, the staged sessions that install packages, and their revert.
--
-- Parts and files.
-- * ApexFile (apexd/apex_file.cpp, apexd/apex_manifest.cpp): `open_package` is `ApexFile::Open` over the bytes
--   of a package as the archive library sees them; ApexFile.Verity is `VerifyApexVerity` over a record of what
--   libavb answers. What is read of a file is an argument.
-- * Session (apexd/apexd_session.cpp, proto/session_state.proto): the sessions directory is an association list
--   from directories to state files, `none` where a state file does not parse; the faults of writes, removals
--   and of the iteration are the record `SessionIo`.
-- * Repository (apexd/apex_file_repository.cpp): the stores of pre-installed and of data APEXes, the scan of the
--   built-in directories with multi-installed APEXes, the block APEXes of a VM, and the queries.
-- * Activation (apexd/apexd.cpp, `SelectApexForActivation`): which APEX of each package is activated.
-- * Database (apexd/apex_database.h, apexd/apex_database.cpp): the mounts of each package in the order of
--   `operator<`, and their reconstruction from /proc/mounts and sysfs. The mutex is not modelled: each
--   operation is one step.
-- * Kernel (the calls of apexd/apexd.cpp and apexd/apexd_loop.cpp): what changes what the kernel holds, with its
--   outcome, as a trace. What the kernel answers is a function of the calls before, the record `Kernel`. `held`
--   is what successful calls have made and no successful call has given back since; for `unreleased` an attempt
--   to give back is enough, and `refused` tells that the kernel has refused the last one.
-- * Loop (apexd/apexd_loop.cpp): loop devices, their configuration, the wait for their nodes.
-- * Mounting (apexd/apexd.cpp, apexd/apexd_verity.cpp, apexd/apexd_private.cpp): `MountPackageImpl` with its
--   destructors and scope guards as calls that run where the rest fails, `Unmount`, temporary mounts,
--   `ActivatePackageImpl`, `DeactivatePackage`. Its state is the trace and the database of mounts.
-- * Installation (apexd/apexd.cpp, `InstallPackage`): the installation of a package without a reboot, on the state
--   of Mounting.
-- * Boot (apexd/apexd.cpp): all packages together, on the files and sessions of Daemon and the state of Mounting.
--   Boot.Lists: the active, inactive and factory packages; Boot.Batch: `ActivateApexPackages` with one worker, which
--   takes the packages in their order; Boot.Missing: `ActivateMissingApexes`; Boot.Completed:
--   `BootCompletedCleanup`; Boot.Start: `OnStart`, which composes the parts; Boot.Shutdown: `UnmountAll` and
--   `RemountPackages`.
-- * FileSystem (apexd/apexd_utils.h): files by path, each with the number of its contents, and directories.
-- * Daemon (apexd/apexd.cpp): the state `Apexd` (files, sessions, changed packages and the calls for
--   snapshots) and the record `Host` of what the daemon asks of the system. Daemon.Sessions: abort, ready and
--   successful; Daemon.Revert: `RevertActiveSessions` and `ResumeRevertIfNeeded`; Daemon.Backup: the backup of
--   the active packages and its restoration; Daemon.Snapshots: snapshots taken before a restore;
--   Daemon.Decompress: `ProcessCompressedApex`; Daemon.Reservation: the space for decompression;
--   Daemon.Verify: the checks on each boot (also apexd/apexd_vendor_apex.cpp); Daemon.Staging: `StagePackages`
--   and `UnstagePackages`; Daemon.Scan: `ScanStagedSessionsDirAndStage`; Daemon.Submit:
--   `SubmitStagedSession`.
--
-- How they interact. The repository opens packages and keeps them by name; the selection reads the repository;
-- the reservation of space reads it too and agrees with the selection; the daemon reads and writes sessions
-- through the session manager, restores files, and checks each decompressed APEX with the verification of
-- ApexFile. `OnStart` stages the sessions, scans the data packages into the repository, selects, decompresses and
-- activates; if an activation fails it asks the daemon for a revert, and without one falls back to the
-- pre-installed packages.
--
-- Conventions. Results are `Result`, with `abort` where the process ends (CHECK, LOG(FATAL), an access to a
-- result that is not there). An `int64_t` is an integer `ℤ`; the narrowing to `int` is written out,
-- in the selection and in the versions that the database records. Loops are
-- structural recursion on the lists that the code iterates over. Five loops take fuel: the wait for a loop
-- device, the walk to the disk below a file, the allocation of loop devices, the unmounting of temporary mounts
-- and the search of a new minor number; all but one have a theorem that says how much is enough, and the
-- allocation ends only as the kernel lets it. Texts of errors are kept in part: no condition reads them. Logging is not modelled.
--
-- Not modelled: the binder service, the checks of vendor and shim packages in a temporary mount, snapshots as
-- files, f2fs, the threads that activate packages side by side, the links to shared libraries, the computation
-- of hash trees, `OnBootstrap` and the start in an OTA chroot.

pub mod Base
pub mod Text
pub mod FileSystem
pub mod ApexFile
pub mod Session
pub mod Repository
pub mod Activation
pub mod Database
pub mod Kernel
pub mod Loop
pub mod Mounting
pub mod Installation
pub mod Boot
pub mod Daemon
pub mod Examples

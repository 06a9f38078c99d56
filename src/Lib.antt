-- ===== src/Lib.antt =====
-- A model of core parts of subscription-manager, the client of a candlepin entitlement server, and
-- theorems about it.
--
-- The parts, and where they are modelled:
--
-- Syspurpose, src/syspurpose/files.py. The system purpose of a host (role, addons, service level and
--   usage) is a dictionary that is kept in a local file, on the server, and in a cache of what the server
--   said last. Value.antt has the values of JSON that it holds. Merge.antt has `detect_changed` and
--   `three_way_merge`; the set of keys is enumerated in any order (`SetOrder`). Store.antt has `add`,
--   `remove`, `unset` and `set` of `SyspurposeStore`. Files.antt has the state of a `SyncedStore`: the
--   server, the two files, the two dictionaries in memory, the flag `changed`, what was handed to the
--   callback, and what was printed; a file is its contents, `none` where it cannot be read as JSON, and
--   how an attempt to open it for writing ends. Synced.antt has the four operations on it, Sync.antt has
--   `sync` and `finish`, and Fields.antt has `get_valid_fields`. The server is a parameter: a state and
--   the functions of the record `Uep`, one for each request that the code makes.
-- Entitlement, src/rhsm/bitstream.py, src/rhsm/huffman.py and src/rhsm/pathtree.py, which unpack the
--   content paths of a version 3 entitlement certificate and match a path against them. zlib and the
--   decoding of UTF-8 are the parameter `Codec`. The word list becomes a Huffman tree
--   (Huffman.antt), its codes a dictionary, and the rest of the data a stream of bits (Bitstream.antt)
--   from which the graph of the path tree is read (PathTree.antt). PathTree/Match.antt has `match_path`.
-- Caches, src/subscription_manager/cache.py. File.antt has the file of a `CacheManager`. Status.antt has
--   `StatusCache` with `ProductStatusCache`: the answer of the server, or the class of the exception that
--   the request raises, is an argument; the thread that writes the file is a step of its own
--   (`run_thread`). Profile.antt has `update_check` with `ProfileManager`: a profile of one kind is of any
--   type with equality, the host collects the same one as long as the manager lives. Products.antt has
--   `has_changed` of `InstalledProductsManager`. Consumer.antt has `read_data` of `ConsumerCache`, whose file
--   holds a JSON object; the exceptions of the server are those of Connection. The guard of
--   `SyspurposeComplianceStatusCache` before it writes is left out.
-- Compliance, src/subscription_manager/cert_sorter.py, with the parts of src/rhsm/certificate.py,
--   src/rhsm/certificate2.py and src/subscription_manager/certdirectory.py that it reads. `load` takes
--   over the status that the server reports, looks for installed products that it does not mention, and
--   scans the entitlement certificates for those that are in the future or have expired. What a load
--   finds is the record `Environment`; the clock stands still while it runs, and the answer of the server
--   has the keys that the code reads without a test (Compliance/Manager.antt). Compliance/Groups.antt has
--   the groups of certificates with one stacking identity, and
--   Compliance/Reasons.antt the map from names to messages of src/subscription_manager/reasons.py.
-- EntCerts, src/subscription_manager/entcertlib.py, with what it uses of
--   src/subscription_manager/certdirectory.py, src/rhsm/certificate2.py and the `ContentAccessCache` of
--   src/subscription_manager/cache.py. Directory.antt has the certificates and keys on the disk, the
--   cached listing, and what the operating system allows (`Host`); a write that fails does so
--   when the file is opened. Update.antt has the parts of the update, Perform.antt `perform`, whose
--   calls of the hooks for repositories and branding are recorded. The server is the record `Server`:
--   its answers, with each bundle as it is parsed; `AccessData` has what is read of its JSON objects.
--   The other files have the proofs.
-- Repos, src/subscription_manager/repofile.py, src/subscription_manager/repolib.py and
--   src/subscription_manager/model/__init__.py: redhat.repo, which is generated from the entitlement
--   certificates. Repos/Content.antt finds the contents of entitlements and makes a `Repo` of each
--   (Repos/Repo.antt); Repos/Update.antt has the overrides and `update_repo`; Repos/YumFile.antt has the
--   file, over the parser of the package iniparse, which is the parameter `IniParser` with the laws
--   `IniLaws` of its sections, which refuses one named "default" in any case; Repos/Perform.antt has `perform`, on a system with neither zypper nor
--   the package debian.deb822. The configuration and urllib's `urljoin` are the record `Settings`.
-- Locks, src/subscription_manager/lock.py: processes that start, exit, and acquire and release the lock
--   of a file. `LockFile.open` has no lock by flock while it creates a missing file, so that a round of the
--   loop of `acquire` is four steps: the test whether the file exists, its creation with the number of
--   the process, the opening, and the rest from flock on, whose argument tells whether another process has
--   the file locked. Steps of other processes may stand between them, and then two processes can both hold
--   the lock (`two_holders` and `two_files` of Locks/Tests.antt); the theorems have the hypothesis
--   `Undisturbed`, that none stands between the steps of one round. `release` is one step: only the
--   holder makes it, and the number in the file is that of a process that runs until the file is unlinked. A
--   process has one lock, process numbers are decimal texts, and every process may send a signal to
--   every other one.
-- ProductIds, src/subscription_manager/productid.py: which product certificates are installed, replaced
--   and removed after a run of the package manager. Versions.antt compares versions, Database.antt has
--   the repositories of each product, Manager.antt `ProductManager`, with the `ProductDirectory` of
--   src/subscription_manager/certdirectory.py. A certificate stands for its one product, versions are not
--   empty, all files can be read, written and deleted, and no other process changes them, so that a
--   cached listing is what is on the disk. A certificate whose file name ends in "key" is not
--   considered. The file of the database stands for its JSON object, whose encoding is left out. rpm's `labelCompare` and the plugins, which may change the list of products that
--   they are given, are the record `Calls`; redhat.repo is read through `IniParser`.
-- Connection, src/rhsm/connection.py. Exceptions.antt has the classes of exceptions; Responses.antt has
--   `validateResult`, over json.loads as a parameter, whose JSON objects have texts, and a list of texts under
--   "errors"; KeepAlive.antt has `parse_keep_alive_header`. Requests.antt has `_create_connection`,
--   `_make_request` and `_request`: the network is a function from the number of an attempt to its time,
--   how connecting ends, and what the request yields; the clock does not go back, and is read once in an
--   attempt. The certificate of the consumer can be read, the text of an exception does not hold
--   the number that an error for a rate limit adds to it, and a header that tells seconds is digits or no
--   number. Caches/Status/Requests.antt has which clause of
--   `load_status` of src/subscription_manager/cache.py catches what.
-- Actions, src/subscription_manager/base_action_client.py and `_main` of
--   src/subscription_manager/scripts/rhsmcertd_worker.py. Actions.antt runs a list of updates, which are
--   any functions; Locked.antt has `update`, with what other processes do to the lock while the updates run; Worker.antt
--   has `_main` with `clean_all_data` of src/subscription_manager/managerlib.py, whose directories exist
--   and whose files can be deleted.
-- FileMonitor, src/rhsmlib/file_monitor.py: the watches of files and directories, and the two loops that call
--   their callbacks, as rounds: one that polls modification times, and one that gets events of inotify. Times
--   are whole milliseconds, events have real paths, `fnmatchcase` is a parameter, and a callback changes
--   no watch.
-- Base, what the parts share: equality tests as an instance argument, numbers, lists, dictionaries as
--   association lists, sorted lists of texts, exceptions as values, and a monad of state and exceptions.
--
-- Fuel: `build_tree` runs on one more round than there are nodes, each round taking one node off the
-- queue; the loop over the bits of a stream and the loop that fills a node of the path tree run on one
-- more round than there are bits left, each taking at least one bit.
--
-- Not modelled: logging, syslog, translations, the creation of missing directories, `build_path_list` and
-- `__str__` of a path tree, `__repr__` and `__hash__` of a Huffman node, reading and writing of a
-- `SyspurposeStore`'s file, the callbacks and file monitors of cert_sorter.py, and the other packages of
-- the repository.
mod Base
pub mod Actions
pub mod Caches
pub mod Connection
pub mod Compliance
pub mod EntCerts
pub mod Entitlement
pub mod FileMonitor
pub mod Locks
pub mod ProductIds
pub mod Repos
pub mod Syspurpose

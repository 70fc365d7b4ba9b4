-- ===== src/Lib.antt =====
-- moirax-ASM: the parts of the reconnaissance pipeline that keep state and decide.
--
-- The development models parts of the Python packages pipeline/ and dashboard/. A module here is
-- named for the part of the program that it models and says so in its first line; the proofs stand
-- in its child modules, and a child named Samples holds concrete inputs.
--
-- Texts are lists of code points (Prelude/Strings), dicts are association lists in insertion order
-- (Prelude/Dict), and floating-point numbers are a type with its operations (Prelude/Num): a
-- theorem about them holds for every such type, or names the order laws that it needs. Clocks are
-- arguments, and what the code writes to logs, files and messages is a list in the state.
--
-- * Rotation models pipeline/ip_rotation.py: ProxyPool is the record of that name, pick is _pick,
--   assign, record_outcome and hook_values_for_attempt are the methods. Entries has parse_pool and
--   mask_proxy, over a parameter for urllib's urlparse.
-- * State models pipeline/state.py: the document state.json as a record, and each function that
--   loads, changes and saves it as a function on what is on disk.
-- * Breaker models pipeline/breaker.py: a module's row with its effects, and in Rows the dict
--   of rows. A pause is persisted in state.json.
-- * Scope models pipeline/scope.py: the gate that every candidate passes, over a parameter for
--   ipaddress, urllib and the YAML reader. The recursion on a URL's host has fuel, of
--   which 2 is enough, as the host of a URL is no URL.
-- * Pace and Balance model pipeline/port_pace.py and pipeline/load_balance.py, the rates of the port
--   sweep and of the DNS queries. Each asks the breaker for a pause when its canaries fail.
-- * Ceiling models pipeline/ceiling.py, the memory and cores of each container of a run.
-- * Fleet models pipeline/fleet.py: requests, slots and the verdict on a fleet of runs.
-- * Auth models dashboard/authstore.py, the dashboard's password and sessions. An operation that
--   takes the lock twice is two steps.
-- * Hosts models pipeline/hostsutil.py, names and seeds over the gate of Scope, and Depth models
--   pipeline/recon_depth.py, the parents and rates of the nested searches.
-- * Adapter models pipeline/adapter.py, where the parts meet: an attempt takes a proxy from
--   Rotation's pool and a share of Ceiling, and tells Breaker and the pool of its outcome. The loop
--   has an attempt for each retry and one more, as the code has, so that it needs no fuel.
-- * Scheduler models pipeline/scheduler.py: the schedule of the runs, over the documents of
--   Prelude/Json.
--
-- * Merge models pipeline/merge.py: Merge is the rows and the reading of the documents, Merge/Output
--   the catch-all addresses, the quarantine and the assets, Merge/Seed the reading of assets.json.
--   It takes the gate's verdict as a function, which Scope/Candidates fills.
-- * Engine models pipeline/engine.py over State: Engine/Branches is the module loops of the two
--   branches, Engine/Ladder the verdict and the ends of a run, Engine/Finish the stages after the
--   branches and the whole run. Runners, clock and other processes are a record, Machine. A write
--   of state.json that fails is left out, and the port check runs before the vhost passes.
-- * Notify models pipeline/notify.py: the receivers, the pool of bot tokens and the rotation over
--   it; Notify/Receivers is the learned map of names and the delivery to a name.
-- * Selftune models pipeline/selftune.py: multipliers in ten-thousandths, rounded as the code rounds.
-- * CustomLists models pipeline/custom_lists.py: the lists of the operator and, in
--   CustomLists/Learned, the hosts that a run has proven and the labels that it learns.
-- * History models pipeline/history.py: the log of runs and the difference of two of them.
-- * Deleted models pipeline/deleted.py: the markers of deleted targets, and in Deleted/Expiry the
--   purge after a window; Deleted/Purge is what a purge takes, Deleted/Window the window.
-- * Searches models the pool of pipeline/search_forge.py and the loop _execute_dork of
--   pipeline/modules/passive_recon.py; a list of rounds stands for what the world answers.
--
-- Not modelled: what the parts above only call, such as Docker, sockets, files and clocks; the
-- modules of the pipeline that drive the tools (pipeline/modules), but for that loop, and the
-- command line;
-- the reports, the warehouse and the dashboard's service and pages.
mod Prelude
pub mod Rotation
pub mod State
pub mod Breaker
pub mod Scope
pub mod Pace
pub mod Balance
pub mod Ceiling
pub mod Fleet
pub mod Auth
pub mod Hosts
pub mod Depth
pub mod Adapter
pub mod Scheduler
pub mod Merge
pub mod Engine
pub mod Notify
pub mod Selftune
pub mod CustomLists
pub mod History
pub mod Deleted
pub mod Searches

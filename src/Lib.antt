-- ===== src/Lib.antt =====
-- HidHide is a Windows filter driver that hides human interface devices from applications. The
-- kernel driver (HidHide/src) keeps a tree of the processes that run, a whitelist of
-- applications, a blacklist of devices and a blacklist for the session of a process; a command
-- line client (HidHideCLI/src) and a dialog configure it through the requests of
-- Shared/HidHideIoctlContract.h. When an application opens a device, the driver asks whether the
-- device is on a blacklist and the application on the whitelist, and completes the request with
-- STATUS_ACCESS_DENIED or passes it on.
--
-- Parts and files:
-- * HidHide/src/Config.c, the Bst functions: Driver/ProcessTree (insert_node is BstInsert,
--   delete_node is BstDelete with detach and attach_lowest for its three cases, lookup,
--   add_count, cleanup, flush_evaluation_cache, new_node). A pointer to a node is a tree, NULL is
--   `leaf`.
-- * HidHide/src/Config.c, the HidHideProcessId functions: Driver/Processes.
-- * HidHide/src/Config.c, HidHideVerifyInternalConsistency: Driver/SelfTest.
-- * HidHide/src/Config.c, the properties in the registry: Driver/Registry, over the record
--   Driver/Framework of what the driver calls of the kernel and its framework, with the laws
--   IsRegistry, and KeepsLists where a client is joined to the driver.
--   HidHideCollectionToMultiString: Driver/MultiString, over the record StringCopy.
-- * HidHide/src/Logic.c, the session blacklist: Driver/Session, a list of nodes over the record
--   ListRoutines of the kernel's AppendTailList. SplitDeviceData and Blacklisted:
--   Driver/Blacklist, over the record TextRoutines.
-- * HidHide/src/Logic.c, the getters and setters of the settings: Driver/Control, whose State has
--   the tree of processes, the context of the control device, the events written for users, and
--   the world of the framework.
-- * HidHide/src/Logic.c, the requests, and HidHide/src/ControlDevice.c: Driver/Requests.
--   evt_io_device_control is the callback that completes a request whose handler failed.
-- * HidHide/src/Logic.c, Whitelisted and OnDeviceFileCreate: Driver/Access. It joins the tree,
--   both lists and the cache.
-- * HidHide/src/Logic.c, the notifications and the count of devices: Driver/Lifetime, whose
--   Machine also says whether the control device, and with it the lock that is its child, is
--   there.
-- * HidHide/src/Logic.c, OnControlDeviceCreate: Driver/Start.
-- * HidHideCLI/src/Utils.cpp, multi-strings and sets: Client/MultiString (multi-strings) and
--   Client/Sets (a std::set is an ascending list over the comparison of its elements).
-- * HidHideCLI/src/Utils.cpp, CommandLineArguments: Client/CommandLine.
-- * HidHideCLI/src/CliParsing.cpp, the parser of a command line: Client/CliParsing, over iswspace
--   as a parameter.
-- * HidHideCLI/src/FilterDriverProxy.cpp, the settings as a client holds them:
--   Client/DriverAccess has the functions over DeviceIoControl, which is the record Device; a
--   THROW_WIN32 is the outcome `thrown`. Client/FilterDriverProxy has the class: Proxy is its
--   members, and a method returns the outcome, the object and the world after it.
--   Client/FilterDriverProxy/Faithful says what a client relies on of the driver,
--   Client/FilterDriverProxy/Connection makes the driver of HidHide/src/Logic.c the device behind
--   the handle, with the I/O manager in between as the record Channel, and
--   Client/FilterDriverProxy/Connected joins both, with Client/FilterDriverProxy/Upheld for what
--   no call of a client breaks.
-- * HidHideCLI/src/Volume.cpp, names of files and full image names: Client/Volume, over the
--   record Volumes of what Windows answers.
-- * HidHideCLI/src/HID.cpp, the groups of devices: Client/Hid, where a device is the record of
--   what Windows says of it, Client/Hid/Model fills in that record, and Client/Hid/Ancestors has
--   the walks to the parents of a device, whose fuel is one more than the parents. The JSON of
--   HidHideCLI/src/Commands.cpp: Client/Json.
-- * HidHideCLI/src/Commands.cpp and CommandInterpreter.cpp, the command line client:
--   Client/Commands has the commands, over the record Platform of the file system and the string
--   table; Client/CommandInterpreter has the table of commands, the help text, ExecuteCommands
--   and Start, where the lines of standard input are a list. Interpreter is the object with the
--   proxy, the text written to wcout and the world of the driver.
-- * Prelude has shared names and lemmas, Examples the concrete runs.
--
-- Each function of the driver runs its critical section under one lock, so it is a function of
-- the state. The result none stands for what the code has no answer to: a use of a deleted object
-- or of a stack frame that is gone, a write outside of a buffer, or the lack of fuel. The loop
-- over a multi-string of a request (build_entries) has fuel: one more than the characters of the
-- buffer, as each round passes over at least one. The loops of CliParsing.cpp and of
-- SplitStringAtWhitespaces have fuel in the same way, one more than the characters of the text,
-- and the loop of HidDevices one more than the devices. Texts are lists of UTF-16 code units,
-- process ids and counts are natural numbers with the wrap-around of the source written out.
--
-- Not modelled: the set-up of the driver and its devices (OnDriverCreate,
-- HidHideDeviceInstancePath, Driver.c, Device.c), which is calls of the framework; tracing; the
-- calls of Windows in HID.cpp, and the functions of Utils.cpp that only call Windows;
-- std::filesystem::path but for its order and its operator /, which are parameters; the dialogs;
-- the watchdog service; and races between critical sections.
pub mod Prelude
pub mod Driver
pub mod Client
mod Examples

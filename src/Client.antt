-- ===== src/Client.antt =====
-- The user-mode side, under HidHideCLI/src: what the command line tool and the dialogs share.
pub mod MultiString
pub mod CliParsing
pub mod Sets
pub mod DriverAccess
pub mod FilterDriverProxy
pub mod Volume
pub mod Hid
pub mod Json
pub mod Commands
pub mod CommandInterpreter
pub mod CommandLine

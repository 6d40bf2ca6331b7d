-- ===== src/Cas/Gatherer.antt =====
-- cas/pkg/framework/gatherer: collecting state with the command line client oc. Shell is what the
-- package takes from the operating system, Commands is oc-cli.go, Collection is
-- data-gatherer.go; the other two hold proofs.
pub mod Shell
pub mod Commands
pub mod Collection
pub mod Flags
pub mod Order
pub mod Logs

-- ===== src/Plugin.antt =====
-- daemon/retif_plugin.h.in and the parts that plugins/sched_*.c have in common: the data of a plugin,
-- the tasks that it shares with the daemon, the calls of the kernel, and the choice of a processor.
mod Data
mod Calls
mod Cpus
pub mod Choice
pub mod Admission
pub use Data.*
unfoldable pub use Calls.*
unfoldable pub use Cpus.*

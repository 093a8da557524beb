-- ===== src/Machine.antt =====
-- What a process of the program does to the world outside it: the calls of the operating system in
-- safeUtil.c and the places where the code calls write, read and malloc directly. The kernel, the
-- network and the library libcpe464 (a copy of another project) answer as the parameter `Env` says.
mod Defs
mod Triple
mod Safe
mod Calls
unfoldable pub use Defs.*
pub use Triple.*
unfoldable pub use Safe.*
pub use Calls.*

-- ===== src/Dll.antt =====
-- Intrusive doubly linked lists, as the run queues and the lists of siblings are: a pointer is a
-- number, 0 is NULL, and `pv` and `nx` are the two link fields as functions of the address.
mod Mem
mod Chains
mod Append
mod Remove
mod Ends
pub use Mem.*
pub use Chains.*
pub use Append.*
pub use Remove.*
pub use Ends.*

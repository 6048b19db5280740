-- ===== src/Examples.antt =====
-- The theorems at concrete inputs, and runs of the code, component by component.
mod Arrays
mod Sorted
mod Multi
mod Queues
mod Rings
mod Adapters
mod Hashing
mod Hashed
mod Keys
mod Bags
mod Bitsets
mod Links
mod Unique
mod Owners
mod Hives
mod Static
mod Memory

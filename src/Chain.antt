-- ===== src/Chain.antt =====
-- chain.go: the tree of block nodes in memory, the main chain, and its reorganisation.
pub mod State
pub mod Nodes
pub mod Connect
pub mod Retarget
pub mod Pruning
pub mod Accept
pub mod Loads
pub mod Process
pub mod Locator
pub mod Checkpoints
pub mod PastMedian
pub mod Lookup

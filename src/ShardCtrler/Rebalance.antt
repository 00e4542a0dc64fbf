-- ===== src/ShardCtrler/Rebalance.antt =====
-- The rebalancing of src/shardctrler/state_machine.go: sums over a table of shards, the largest and
-- the smallest group, and the loop of `Join`.
pub mod Totals
pub mod Extremes
pub mod Loop
pub mod Fuel
pub mod Assignment
pub mod Removal
pub mod Measure

-- ===== src/Witnesses.antt =====
-- Inputs at which the theorems apply, one file for each part of the program.
mod IdsWitness
mod RetryWitness
mod ChainWitness
mod ActivityWitness
mod LoopWitness
mod ChildrenWitness
mod FireWitness
mod CronWitness
mod QueryWitness
mod SignalWitness
mod UpdateWitness

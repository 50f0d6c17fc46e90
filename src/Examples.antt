-- ===== src/Examples.antt =====
-- The program on concrete inputs: runs of it, and the theorems at inputs that meet their hypotheses.
mod Shelf
mod Runs
mod Cleaning
mod Meanwhile
mod Answers
mod Requests
mod Layers
mod Starting
mod Living
mod Draining
mod Commanding
mod Growth
mod Acknowledged
mod Machine

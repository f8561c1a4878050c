-- ===== src/Examples.antt =====
-- Runs of the model on small inputs, and the theorems at inputs that meet their hypotheses.
mod Values
mod Graphs
mod States
mod Code
mod Locals
mod Methods
mod Analysis
mod Handlers
mod Profiles

-- ===== src/Tests.antt =====
-- Runs of the definitions on small inputs, and each result at an input that meets its conditions.
mod Words
mod Instructions
mod Programs
mod Decompiler
mod Dataflow
mod Containers
mod Graphs
mod Analyses
mod Boundaries
mod Variables
mod Builder

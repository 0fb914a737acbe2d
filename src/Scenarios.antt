-- ===== src/Scenarios.antt =====
-- Sessions on concrete inputs: a backend, a broker, tools and a planner to run the model on.
mod Data
mod Executes
mod Loops
mod Guards
mod Others
mod Agents
mod Windows
mod Seen
mod Desktop
mod Read

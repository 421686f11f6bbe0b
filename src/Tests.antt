-- ===== src/Tests.antt =====
-- Runs of the models on small inputs, at which the hypotheses of the theorems hold.
mod Data
mod Lists
mod Plugins
mod Schedulers
mod Daemons
mod Initial
mod Vectors
mod Configs
mod Clients
mod Channels

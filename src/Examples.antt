-- ===== src/Examples.antt =====
-- Concrete instances of the libraries that the model takes as parameters, and the theorems applied to
-- them.
mod Toys
mod MemoryExamples
mod SqliteExamples
mod ServerExamples
mod KeyExamples
mod DhtExamples
mod Aging
mod Daemon
mod IpfsExamples
mod HybridExamples
mod LoggingExamples
mod Desk
mod CliExamples
mod ExchangeExamples
mod RestartExamples
mod StoreExamples
mod WaitingExamples
mod BackendExamples

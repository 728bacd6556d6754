-- ===== src/Push.antt =====
-- Push deliveries: the queue of internal/infrastructure/persistence/postgres/deliveryqueue, the
-- dispatcher and the retry scheduler of internal/infrastructure/push, and the acknowledgements of
-- internal/interface/ws/hub.go.
pub mod Queue
pub mod Attempts
pub mod Acked
pub mod Retried

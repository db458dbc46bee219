-- ===== src/Promo.antt =====
-- services/promo-engine: model/model.go (Model, Condition, Json), repository/rule_store.go (Store),
-- repository/redis.go (Counter), and service/evaluator.go with service/resolver.go (Resolve).
pub mod Model
pub mod Condition
pub mod Rule
pub mod Json
pub mod Counter
pub mod Store
pub mod Resolve
pub mod Handler

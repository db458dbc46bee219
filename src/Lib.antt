-- ===== src/Lib.antt =====
-- Verification library of the services under services/ and of the shared packages under pkg/.
--
-- The repository is a set of small Go services over shared packages. Each module below models one of
-- them as pure functions on explicit state: a method that mutates its receiver returns the new record, a
-- mutex is the atomicity of the function that stands for the locked section, the clock, fresh ids, hashes
-- and float64 are arguments, and the data that pointers share is one store keyed by id.
--
--   Base       Boolean tests, lists, Go maps as association lists, sorting, and the interfaces of
--              float64 (Base.Floats) and of Redis (Base.Redis), with the laws that the code relies on
--   Kit        pkg/kit/circuitbreaker (Breaker) and pkg/consistenthash (Ring)
--   Dispatch   services/dispatch-service: model, service/statemachine.go (Machine), service/batcher.go
--              (Batcher), service/matcher.go (Matcher), and service/reassign.go with
--              handler/handler.go (Service)
--   Checkout   services/checkout-service: service/saga.go (Saga, Steps) and service/checkout.go (Flow)
--   Flash      services/flash-sale: store.go and service.go, the stock and its reservations (Stock), the
--              slot pool (Slots), the checkout with the waiting room (Pipeline) and the lottery
--              (Lottery)
--   Inventory  services/inventory-service: repository/redis.go and service/service.go
--   Drive      services/google-drive/store
--   Feed       services/news-feed/store
--   Chat       services/chat-system/room
--   KeyValue   services/key-value-store: storage/memory.go and shard/shard.go, over Kit.Ring
--   Snowflake  services/unique-id-generator/snowflake
--   Shortener  services/url-shortener: shortcode, storage/memory.go and service/service.go
--   Promo      services/promo-engine: model/model.go (Model, Condition, Rule, Json), repository/redis.go
--              (Counter), repository/rule_store.go and service/evaluator.go (Store),
--              service/resolver.go (Resolve) and handler/handler.go (Handler)
--   Limits     services/rate-limiter: algorithm/fixed_window.go, algorithm/sliding_window.go and
--              storage/memory.go
--
-- In Kit.Breaker `enter` and `leave` are the two locked sections of CircuitBreaker.Execute, and `execute`
-- a call of its own; Probes interleaves the sections of several calls. In Kit.Ring `add`, `remove_node` and
-- `get` are Add, Remove and Get; sort_search is sort.Search, on fuel equal to the length searched, which
-- shrinks in every round. In Dispatch.Machine `transition` is Transition and the log is `events`. In
-- Dispatch.Batcher `run` is the goroutine's loop on the signals that it selects. In Dispatch.Matcher
-- `matching` is Match, with as many rounds as orders, since a round removes one. In Checkout.Saga `execute`
-- is SagaOrchestrator.Execute over any steps; Checkout.Steps has the five steps of the service and
-- Checkout.Flow has NewOrder and ConfirmPayment.
--
-- In Flash.Stock and Inventory a Lua script is one step on a store that obeys the laws of Base.Redis;
-- `bucket_decr`, `release_found`, `reserve_script` and `release_script` are the scripts, and
-- `reserve_stock`, `release_reservation`, `repo_reserve` and `repo_release` the methods that run them; the
-- other methods run as one step, but `lottery_checkout`, which has a store for each of its two calls. The
-- tests run them on association lists. `Chat.run` is the loop of a room on the signals it selects. In
-- Drive, Feed and Limits each method is the function of its name.
--
-- In Promo encoding/json, sort.Slice and float64 are interfaces, and `unmarshal_condition` recurs on fuel
-- above the length of its message, where a message inside another is shorter. `Snowflake.next` is Next on
-- the readings of the clock, and `KeyValue.get_shard` is getShard over the ring. Shortener draws from a
-- given source of numbers, five codes at most. In Dispatch.Service a retry whose timer elapses is the step
-- `elapse`, and in Flash.Pipeline `checkout` is Checkout.
--
-- Counters, stocks and times are unbounded natural numbers; amounts of money, int64, are bit patterns
-- modulo 2^64. Logging, HTTP, metrics, errors of the connection to Redis, and JSON outside of Promo are left
-- out: no modelled state depends on them. The services that are mostly float64 formulas, the handlers but
-- those of Dispatch.Service and Promo.Handler, and the stubs are not modelled.
pub mod Base
pub mod Chat
pub mod Checkout
pub mod Dispatch
pub mod Drive
pub mod Feed
pub mod Flash
pub mod Inventory
pub mod KeyValue
pub mod Kit
pub mod Limits
pub mod Promo
pub mod Shortener
pub mod Snowflake

-- ===== src/Lib.antt =====
-- A verification library for the risk engine: the parts of the program that decide about orders,
-- keep the market data they are decided on, and place instruments and events on shards and ring
-- buffers.
--
-- The program. `RiskEngine` (src/core/RiskEngine.cpp, src/core/RiskEngine.h) is called with an order
-- and answers ACCEPT or REJECT. It keeps a circuit breaker for each instrument, a kill switch for
-- all, a window in which anomalies are counted, counters and a ring of latencies. It reads the order
-- books of `MarketDataCache` (src/domain/MarketData.h), which market data events update, and asks
-- the limits and the value-at-risk model about amounts. `DisruptorConfig`
-- (src/infrastructure/DisruptorConfig.cpp) sizes the ring buffer between the feed and the engines
-- and starts the threads that empty it; `ShardingStrategy` (src/infrastructure/ShardingStrategy.cpp)
-- says which engine an instrument or an order belongs to. The application's own `KillSwitch`
-- (src/application/KillSwitch.cpp) watches latencies and rates and is asked whether to block orders.
-- `MarketDataFeedAdapter` and `OrderManagementAdapter` (src/adapters) read messages from a feed and from
-- an exchange over sockets, publish them on ring buffers and keep the orders that wait for an answer.
-- `ReplayEngine` (src/application/ReplayEngine.cpp) loads recorded events and sends them to a risk engine;
-- `VaRModel` (src/domain/VaRModel.h) computes the value at risk from prices. src/main.cpp reads the
-- configuration and the arguments and runs the engine or a replay.
--
-- Files and code.
--   RiskEngine/Types: RiskDecision, CircuitBreakerState, RiskEvaluationResult, Order, the reasons.
--   RiskEngine/State: the engine's members and its constructor, resets, onMarketData.
--   RiskEngine/Breaker: checkCircuitBreaker and updateCircuitBreakerState; Breaker/Transitions has the
--     machine as a relation between states.
--   RiskEngine/Checks: evaluateRiskLimits, evaluateVaR, checkKillSwitchAnomaly.
--   RiskEngine/Evaluate: recordLatency, emitRiskEvent, and evaluateOrder in the order of its guards.
--     The children say what it does to the decision, the breakers, the counters and the kill
--     switch; RiskEngine/Reachable, Unreset and Runs are about sequences of calls.
--   MarketData/Book: PriceLevel and OrderBookLevel2 of ten levels; MarketData/Event: Trade and
--     MarketDataEvent; MarketData/Cache: MarketDataCache.
--   Disruptor/Config: the builder, Validate, FromJson, BuildRingBuffer, BuildWaitStrategy
--     and GetMetrics;
--     Disruptor/Consumer: StartConsumers with the loop of a thread, ConfigureThreadAffinity and
--     RecordConsumerMetrics; RingSize, Validation, Drain and Threads are proofs.
--   Sharding/Hash: ComputeMurmurHash and the keys of virtual nodes; Sharding/Strategy: the builder, the
--     ring and the choice of a shard; Sharding/Shards: registration, load and metrics; Ring,
--     Successor, Placement, Registry, Decimal and Loading are proofs.
--   KillSwitch: the whole of the application's kill switch; Machine, Histories and Timeout are proofs.
--   RiskLimits: thresholds, limits and RiskLimitsManager (src/domain/RiskLimits.h); Validation and
--     Blocking are proofs.
--   Texts: byte strings, std::stoi, std::stoll and std::stoull (Numbers), and maps with byte strings for
--     keys (Keyed).
--   Adapters: what the two adapters share, in the same words in both files: processResponseBuffer and
--     processMessageBuffer (Framing, whose children are proofs), parseExchangeUrl and parseFeedUrl
--     (Address), the system calls of connect (Connection), JSON values (Document), the ring buffer (Ring).
--   OrderManagement: OrderManagementAdapter, with the responses in Responses; Submission, Answers,
--     Settlement, Runs and Identifiers are proofs.
--   MarketDataFeed: MarketDataFeedAdapter; Counting, Stream and Reconnecting are proofs.
--   Replay: ReplayEngine, with loading in Replay, the events and the report in Playing, processNextEvent
--     in Progress and the speed in Speed; Loading, RoundTrip, Completion, Order and Sorting are proofs.
--   VaRModel: VaRModel's members and the parts of its loops, the functions in Operations, VaRModelRegistry
--     in Registry (src/domain/VaRModel.h); Window, Volatility, Reachable and Portfolio are proofs.
--   Main: loadConfig, the loop over the arguments and runReplayMode, and in Normal runNormalMode and the
--     end of main; Completion and Normal/Reports are proofs.
--   Common: tests on numbers, lists, words of 64 bits, integers, bits, maps, texts, JSON values,
--     doubles.
--
-- Conventions. A call is a function from the state to the state and the result; calls are taken one
-- at a time, so locks and memory orders are not modelled. Unsigned words wrap at 2^64 where the code
-- lets them; int64_t amounts are integers, taken where they do not overflow. A `double` is a type
-- with the operations that the code uses (Common/Double); where a theorem needs a law of them, it is
-- a hypothesis, and Common/Fixed has fixed-point numbers that satisfy it. The clock, the limits, the
-- value-at-risk model, the handlers, the barrier of the Disruptor library and the JSON library are
-- parameters. `none` is an exception or undefined behaviour, as the definition says. Logging is left
-- out.
--
-- Fuel. The loop of a consumer runs on as many steps as events are pending, which is shown to be
-- enough. `bit_length` and `decimal` take the greatest number of digits that a word of 64 bits can
-- have, 64 and 20. The loop over a receive buffer has the buffer's length for fuel, since each round
-- removes three bytes or more, and more fuel changes nothing. All other loops are recursions on a list or a counter.
--
-- Not modelled: the texts of log lines, and the set-up of the logger in src/main.cpp. The functions of the
-- risk engine that src/main.cpp calls are in no class of the repository; they are parameters.
pub mod Common
pub mod MarketData
pub mod RiskEngine
pub mod Disruptor
pub mod Sharding
pub mod Texts
pub mod Adapters
pub mod OrderManagement
pub mod MarketDataFeed
pub mod Replay
pub mod VaRModel
pub mod Main
pub mod KillSwitch
pub mod RiskLimits

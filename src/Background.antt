-- ===== src/Background.antt =====
-- The operations that run behind a client: ping_op.hpp, sentry_op.hpp, re_auth_op.hpp and
-- read_message_op.hpp of include/boost/mqtt5/impl.
pub mod Timers
pub mod ReAuth
pub mod ReadMessage
pub mod Keeping

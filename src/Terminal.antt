-- ===== src/Terminal.antt =====
-- The helpers of the terminal interfaces: app/inc/ansi_util.hpp and
-- app/cli/src/completion_helpers.cpp.
pub mod Ansi
pub mod Completion

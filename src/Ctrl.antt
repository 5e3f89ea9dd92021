-- ===== src/Ctrl.antt =====
-- ctrl/: programs that move Doom's player, through a callback on each tic's `ticcmd_t`.
pub mod Axis
pub mod Replay
mod Tests

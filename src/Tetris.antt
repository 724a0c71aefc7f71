-- ===== src/Tetris.antt =====
-- hw17-tetris: the game of game.c and the score table of scoreboard.c.
pub mod Pieces
pub mod Game
pub mod Lines
pub mod Place
pub mod Moves
pub mod Turn
pub mod Draw
pub mod Scoreboard
mod Tests

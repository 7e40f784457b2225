-- ===== src/Uudecode.antt =====
-- libtrn/uudecode.cpp: a uuencoded line, the state machine over the lines of a file, and the test
-- for the line that starts a part.
pub mod Line
pub mod Machine
pub mod Prescan

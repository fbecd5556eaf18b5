-- ===== src/Parsing.antt =====
-- orchestration/langgraph/mission_parser.py: the words that suggest tools, the lines of a text that are
-- steps, and what is made of a list of steps.
pub mod Keywords
pub mod Lines
pub mod Steps
pub mod Plans
mod Samples

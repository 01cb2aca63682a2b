-- ===== src/Assembly.antt =====
-- course1-2/3-neo-at-the-architect/7-syntax_arm.c: which processor an assembler program is for, from
-- the words of its text. Assembly/Buffer is the text in `data`, Assembly/Words the vector and its
-- words, Assembly/Checks the checks, Assembly/Report `main`. A character is its ASCII code.
pub mod Buffer
pub mod Words
pub mod Checks
pub mod Report
pub mod Tests

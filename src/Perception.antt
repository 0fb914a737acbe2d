-- ===== src/Perception.antt =====
-- src/desktop_worker/perception: what is seen on the screen, by accessibility and by text recognition.
pub mod Rank
pub mod Perceiver
pub mod Ocr

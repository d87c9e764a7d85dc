-- ===== src/Gemini.antt =====
-- Server/gemini_ai.c: the request to the Gemini API and the reading of its answer.
pub mod Request
pub mod Api

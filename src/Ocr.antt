-- ===== src/Ocr.antt =====
-- backend/internal/ocr: the two OCR engines and the check of one against the other.
pub mod Types
pub mod CrossVerify
pub mod Service

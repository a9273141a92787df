-- ===== src/Tags.antt =====
-- `TagService` of backend/app/services/tag_service.py: tags, and the entities that carry them.
mod Service
mod Unique
mod Carried
mod Tests

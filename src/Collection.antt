-- ===== src/Collection.antt =====
-- internal/collection: usage events and the activity classifier.
pub mod Event
pub mod Classifier

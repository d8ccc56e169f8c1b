-- ===== src/Manifest.antt =====
-- web/src/manifestSyntax.ts: the tokenizer of the drawer's manifest, its lines, folds and hits.
pub mod Scalar
pub mod Yaml
pub mod Json
pub mod Lines
pub mod Folds
pub mod Runs

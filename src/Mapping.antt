-- ===== src/Mapping.antt =====
-- internal/mapping: how fields are mapped. Visual.antt is the model behind the mapping view
-- (visual/model.go), Expression.antt the engine of expressions (expression/engine.go), Auto.antt the
-- mappings that are suggested (auto/automapper.go).
pub mod Visual
pub mod Expression
pub mod Auto

-- ===== src/CaseMappings.antt =====
-- core/vca/case_mappings.cpp and its users in core/vca/string.cpp: `Tables` holds the two tables,
-- `Convert` the functions that apply them to a text; `Check` evaluates facts of the tables, from
-- which `Laws` proves what holds of every text.
pub mod Tables
pub mod Convert
mod Check
pub mod Laws

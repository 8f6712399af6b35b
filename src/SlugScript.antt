-- ===== src/SlugScript.antt =====
-- backend/src/framework/slug_script.py: scripts that say which market slugs to follow.
--
-- A script is the tree that `ast.parse` makes of it. Names and texts are lists of code points; the line
-- and column of an error are left out. What Python does with values (operators, methods, built-in
-- functions, iteration) is the interface `Python` of Values. A node that validation refuses
-- never reaches the evaluator, so what the evaluator does with its inside is not told apart.
pub mod Syntax
pub mod Validation
pub mod Values
pub mod Machine
pub mod Evaluation
pub mod Program
pub mod Ensures
pub mod Bounds
pub mod Supported
pub mod Meaning
pub mod Endings
mod Tests

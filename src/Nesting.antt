-- ===== src/Nesting.antt =====
-- scripts/cpplint.py: `NestingState` and the blocks on its stack. The stack is a list with the
-- innermost block first. Python keeps `previous_stack_top` as a reference to the block, here it is a
-- copy from before the line: no function that is modelled reads it.
pub mod Block
pub mod NamespaceEnd
pub mod Template
pub mod State
pub mod Braces
pub mod Update
pub mod Namespaces
pub mod Branches
pub mod Tokens
pub mod Depth
pub mod Tests

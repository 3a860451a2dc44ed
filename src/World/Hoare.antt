-- ===== src/World/Hoare.antt =====
-- Pre- and postconditions: from a state with `P`, a function that returns `a` ends in a state with
-- `Q a`, and one that fails ends in a state with `E`.
pub mod Rules
pub mod Facts
pub use Rules.{
  Ends, Triple, Triple-pure, Triple-raise, Triple-lift, Triple-gets, Triple-context, Triple-or_else,
  Triple-defers, Triple-weaken, Triple-modify, Triple-ignore, Triple-bind,
}
pub use Facts.{
  Triple-keeps, Unclaimed, Triple-returns, Triple-anything, Triple-both, Triple-exists,
  Triple-check, Triple-test, Triple-result, Triple-if, Triple-fact, Triple-on_root,
}

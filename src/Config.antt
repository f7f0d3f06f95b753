-- ===== src/Config.antt =====
-- src/configor.cpp: a configuration as a tree of named elements, its text form, and back. Texts are
-- lists of bytes. An element's pointer to its configuration, the lock and the files are not here.
pub mod Lexer
pub mod Parser
pub mod Writer
pub mod RoundTrip
pub mod Values
pub mod Children
pub mod Examples
use ashe.Base.{ℕ, List}

-- `Configor::Element`, and a vector of them.
mutual
  pub data Element : Type 0 where
    element : (name : List ℕ) (values : List (List ℕ)) (children : Elements) → Element

  pub data Elements : Type 0 where
    leaf : Elements
    child : Element → Elements → Elements

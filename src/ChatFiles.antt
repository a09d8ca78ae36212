-- ===== src/ChatFiles.antt =====
-- The chat files of OriginalLinuxCode/chatReader.c and chatWriter.c, and what the two use of the C
-- library: texts are lists of bytes without zeros, an open file is the bytes from its position on.
pub mod Stdio
pub mod Reader
pub mod Writer
pub mod Spec
pub mod Store
use qmsp.Base.{ℕ, Bool, Option, List}

-- An entry of the directory: whether it is a regular file, and its bytes if it can be opened.
pub record Entry : Type 0 where
  pub name : List ℕ
  pub regular : Bool
  pub contents : Option (List ℕ)

-- `./localChats` in the order of `readdir`, if it can be opened.
abbrev pub Directory : Type 0
Directory = Option (List Entry)

-- ===== src/Request/Init.antt =====
-- internal/nawa/request/RequestInitContainer.h and src/request/File.cpp.
use nawa.Common.{ℕ, List, Option, length, Bytes}

-- An uploaded file; its buffer and size are the bytes.
pub record File : Type 0 where
  pub filename : Bytes
  pub content_type : Bytes
  pub contents : Bytes

unfoldable pub size : File → ℕ
size f = length f.contents

unfoldable pub to_string : File → Bytes
to_string f = f.contents

pub record RequestInit : Type 0 where
  pub environment : List (Bytes × Bytes)
  pub get_vars : List (Bytes × Bytes)
  pub post_vars : List (Bytes × Bytes)
  pub cookie_vars : List (Bytes × Bytes)
  pub post_files : List (Bytes × File)
  pub raw_post : Option Bytes
  pub post_content_type : Bytes

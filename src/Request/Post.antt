-- ===== src/Request/Post.antt =====
-- src/request/GPC/ext/Post.cpp: POST variables, files and the raw body.
use nawa.Common.{ℕ, Bool, not, ◌&&◌, List, Option, length, is_empty, Bytes}
use nawa.Common.Table.{text_eq, lookup, values_at}
use nawa.Request.Init.{RequestInit, File}
use nawa.Request.Gpc.{Gpc, post_source}
use nawa.Request.Gpc

pub record Post : Type 0 where
  pub gpc : Gpc
  pub content_type : Bytes
  pub raw_post : Option Bytes
  pub file_map : List (Bytes × File)

unfoldable pub make : RequestInit → Post
make init = record {
  gpc = Gpc.make init post_source;
  content_type = init.post_content_type;
  raw_post = init.raw_post;
  file_map = init.post_files;
}

-- `operator bool`.
unfoldable pub is_filled : Post → Bool
is_filled p = not (is_empty p.gpc.data_map && is_empty p.file_map)

unfoldable pub has_files : Post → Bool
has_files p = not (is_empty p.file_map)

unfoldable pub get_file : Post → Bytes → Option File
get_file p key = lookup key p.file_map

unfoldable pub get_file_vector : Post → Bytes → List File
get_file_vector p key = values_at key p.file_map

unfoldable pub count_files : Post → Bytes → ℕ
count_files p key = length (values_at key p.file_map)

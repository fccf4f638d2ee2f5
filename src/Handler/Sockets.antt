-- ===== src/Handler/Sockets.antt =====
-- The constructors of src/RequestHandler/impl/FastcgiRequestHandler.cpp and HttpRequestHandler.cpp:
-- the socket that the configuration asks for.
use nawa.Common.{
  ℕ, ◌+◌, ◌-◌, ◌*◌, ◌%◌, ◌^◌, Bool, true, false, not, ◌&&◌, ◌||◌, [], ◌∷◌, Option, none, some, ltb,
  leb, ◌==◌, if◌then◌else◌, is_empty, Bytes, codes, beq,
}
use nawa.Common.Result.{Result, ok, err, ◌>>=◌, catch_invalid, exception}
use nawa.Common.Number.{u64, stoul}
use nawa.Config.{Config}
use nawa.Config
use nawa.Logging
use nawa.Handler.Environment.{get_listen_addr, get_listen_port}

-- The levels of fastcgipp-lite, and the level that its messages are logged with.
pub data LibraryLevel : Type 0 where
  info fail error diag debug warning : LibraryLevel

unfoldable pub nawa_level : LibraryLevel → Logging.Level
nawa_level info = Logging.informational
nawa_level fail = Logging.error
nawa_level error = Logging.error
nawa_level warning = Logging.warning
nawa_level debug = Logging.debug
nawa_level diag = Logging.debug

-- `listen` of the manager, for a TCP port and for a UNIX socket. A null pointer is `none`.
pub data Listen : Type 0 where
  tcp : Option Bytes → Bytes → Listen
  unix : Bytes → ℕ → Option Bytes → Option Bytes → Listen

pub record Manager : Type 0 where
  pub concurrency : ℕ
  pub post_max : ℕ
  pub listen : Listen
  pub reuse_address : Bool

fastcgi_setting : Config → Bytes → Bytes
fastcgi_setting config name = Config.get config (codes "fastcgi") name

or_default : Bytes → Bytes → Bytes
or_default value default = if is_empty value then default else value

-- The pointer to a fastcgi_setting, or null where it is empty.
pointer : Bytes → Option Bytes
pointer s = if is_empty s then none else some s

-- A size in kibibytes; a value that is no number counts as 0, and one that is too large throws.
unfoldable pub post_max : Config → Result ℕ
post_max config =
    if Config.is_set (codes "post", codes "max_size") config
    then catch_invalid
        (stoul (Config.get config (codes "post") (codes "max_size")) >>= λ n. ok ((n * 1024) % u64))
        0
    else ok 0

is_space : ℕ → Bool
is_space c = c == 32 || (leb 9 c && leb c 13)

-- The octal digits of a text and what follows them, which is `none` where there is no digit.
unfoldable pub octal : Option ℕ → Bytes → Option (ℕ × Bytes)
octal none [] = none
octal (some n) [] = some (n, [])
octal none (c ∷ s) =
    let rest = octal (some (c - b'0')) s in if leb b'0' c && leb c b'7' then rest else none
octal (some n) (c ∷ s) =
    let rest = octal (some (n * 8 + (c - b'0'))) s in
    if leb b'0' c && leb c b'7' then rest else some (n, c ∷ s)

-- A `long` stops at its bounds. The result is the pattern of its 64 bits.
clamp : Bool → ℕ → ℕ
clamp negative n =
    if negative
    then (u64 - (if ltb n (2 ^ 63) then n else 2 ^ 63)) % u64
    else (if ltb n (2 ^ 63) then n else 2 ^ 63 - 1)

complete : Bool → Option (ℕ × Bytes) → Option ℕ
unfolding clamp
complete negative none = none
complete negative (some (n, [])) = some (clamp negative n)
complete negative (some (n, c ∷ s)) = none

skip_space : Bytes → Bytes
unfolding is_space
skip_space [] = []
skip_space (c ∷ s) = let rest = skip_space s in if is_space c then rest else c ∷ s

signed : Bytes → Option ℕ
unfolding complete
signed [] = none
signed (c ∷ s) =
    if c == b'-'
    then complete true (octal none s)
    else if c == b'+'
    then complete false (octal none s)
    else complete false (octal none (c ∷ s))

-- `strtol(psptr, &endptr, 8)` where it reads up to the end.
unfoldable pub strtol_octal : Bytes → Option ℕ
unfolding skip_space signed
strtol_octal s = signed (skip_space s)

-- A text that is no octal number leaves the permissions as they are.
unfoldable pub permissions : Config → ℕ
unfolding fastcgi_setting
permissions config = elim (strtol_octal (fastcgi_setting config (codes "permissions"))) [
  | none ↦ 2 ^ 32 - 1
  | some perm ↦ perm % 2 ^ 32
]

unfoldable pub listen_tcp : Config → Listen
unfolding fastcgi_setting or_default
listen_tcp config =
    let address = or_default (fastcgi_setting config (codes "listen")) (codes "127.0.0.1") in
    tcp (if beq address (codes "all") then none else some address)
      (or_default (fastcgi_setting config (codes "port")) (codes "8000"))

unfoldable pub listen_unix : Config → Listen
unfolding fastcgi_setting or_default pointer
listen_unix config =
    unix
      (or_default (fastcgi_setting config (codes "path"))
        (codes "/etc/nawarun/sock.d/nawarun.sock"))
      (permissions config) (pointer (fastcgi_setting config (codes "owner")))
      (pointer (fastcgi_setting config (codes "group")))

-- The socket for the mode, and the code of the exception where it cannot be had.
unfoldable pub socket : Config → Result (Listen × ℕ)
unfolding fastcgi_setting
socket config =
    let mode = fastcgi_setting config (codes "mode") in
    if beq mode (codes "tcp")
    then ok (listen_tcp config, 1)
    else if beq mode (codes "unix")
    then ok (listen_unix config, 2)
    else err (exception 3)

module _ (listens : Listen → Bool) where
  unfoldable pub open_socket : Config → Result Listen
  open_socket config =
      socket config >>= λ (listen, code). if listens listen then ok listen else err (exception code)

  unfoldable pub fastcgi_manager : Config → ℕ → Result Manager
  unfolding fastcgi_setting
  fastcgi_manager config concurrency = post_max config >>= λ limit.
      (open_socket config >>= λ listen. ok (record {
        concurrency = concurrency;
        post_max = limit;
        listen = listen;
        reuse_address = not (beq (fastcgi_setting config (codes "reuseaddr")) (codes "off"));
      }))

-- The HTTP server and the number of its threads.
pub record Server : Type 0 where
  pub address : Bytes
  pub port : Bytes
  pub reuse_address : Bool
  pub threads : ℕ

-- A count is given as a natural number; one that is not positive means one thread.
unfoldable pub http_server : (Bytes → Bytes → Bool) → Config → ℕ → Result Server
http_server listens config concurrency =
    let address = get_listen_addr config in
    let port = get_listen_port config in
    let reuse = not (beq (Config.get config (codes "http") (codes "reuseaddr")) (codes "off")) in
    if listens address port
    then ok (record {
      address = address;
      port = port;
      reuse_address = reuse;
      threads = if ltb 0 concurrency then concurrency else 1;
    })
    else err (exception 1)
